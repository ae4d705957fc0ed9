-- ===== src/PathConf.antt =====
-- internal/conf/path.go: which names a path can have, and which configuration a name falls under.
-- A string is the list of its bytes. A compiled regular expression is a number, told apart from the
-- others, and `FindStringSubmatch` and `sort.Slice` are parameters.
pub mod Names
pub mod Find
mod Tests
use ppmmx.Base.{
  ℕ, zero, suc, Bool, true, false, not, ◌&&◌, ◌||◌, Option, none, some, List, [], ◌∷◌, ◌++◌, ltb,
  leb, ◌==◌, if◌then◌else◌,
}

abbrev pub Name : Type 0
Name = List ℕ

-- == of strings
unfoldable pub eqb_name : Name → Name → Bool
eqb_name [] [] = true
eqb_name [] (y ∷ ys) = false
eqb_name (x ∷ xs) [] = false
eqb_name (x ∷ xs) (y ∷ ys) = x == y && eqb_name xs ys

-- < of strings
unfoldable pub less_name : Name → Name → Bool
less_name xs [] = false
less_name [] (y ∷ ys) = true
less_name (x ∷ xs) (y ∷ ys) = if ltb x y then true else x == y && less_name xs ys

abbrev pub slash : ℕ
slash = b'/'

-- strings.SplitSeq(name, "/")
abbrev pub with_first : ℕ → List Name → List Name
with_first c [] = (c ∷ []) ∷ []
with_first c (s ∷ ss) = (c ∷ s) ∷ ss

unfoldable pub split_slash : Name → List Name
split_slash [] = [] ∷ []
split_slash (c ∷ cs) = if c == slash then [] ∷ split_slash cs else with_first c (split_slash cs)

-- A byte of the class of rePathName.
unfoldable pub is_path_char : ℕ → Bool
is_path_char c =
    (leb b'0' c && leb c b'9')
    || (leb b'a' c && leb c b'z')
    || (leb b'A' c && leb c b'Z')
    || (c == b'_')
    || (c == b'-')
    || (c == slash)
    || (c == b'.')

unfoldable pub all_path_chars : Name → Bool
all_path_chars [] = true
all_path_chars (c ∷ cs) = is_path_char c && all_path_chars cs

abbrev pub is_dot_segment : Name → Bool
is_dot_segment s = eqb_name s (b'.' ∷ []) || eqb_name s (b'.' ∷ b'.' ∷ [])

unfoldable pub any_dot_segment : List Name → Bool
any_dot_segment [] = false
any_dot_segment (s ∷ ss) = is_dot_segment s || any_dot_segment ss

abbrev pub last_of : ℕ → Name → ℕ
last_of c [] = c
last_of c (d ∷ ds) = last_of d ds

pub data NameError : Type 0 where
  cannot_be_empty begins_with_slash ends_with_slash bad_character dot_segment : NameError

-- The error, or `none` for a valid name.
unfoldable pub is_valid_path_name : Name → Option NameError
is_valid_path_name [] = some cannot_be_empty
is_valid_path_name (c ∷ cs) =
    if c == slash
    then some begins_with_slash
    else if last_of c cs == slash
    then some ends_with_slash
    else if not (all_path_chars (c ∷ cs))
    then some bad_character
    else if any_dot_segment (split_slash (c ∷ cs))
    then some dot_segment
    else none

-- conf.Path. The settings that `pathConfCanBeUpdated` copies are one value, `reloadable`, and the
-- others are another, `fixed`.
pub record PathConf : Type 0 where
  pub name : Name
  pub regexp : Option ℕ
  pub reloadable : ℕ
  pub fixed : ℕ

-- map[string]*conf.Path
abbrev pub Confs : Type 0
Confs = List (Name × PathConf)

unfoldable pub lookup_conf : Name → Confs → Option PathConf
lookup_conf name [] = none
lookup_conf name ((key, c) ∷ cs) = if eqb_name key name then some c else lookup_conf name cs

abbrev pub and_conf : Option ℕ → PathConf → List PathConf → List PathConf
and_conf none c cs = cs
and_conf (some r) c cs = c ∷ cs

unfoldable pub regexp_confs : Confs → List PathConf
regexp_confs [] = []
regexp_confs ((key, c) ∷ cs) = and_conf c.regexp c (regexp_confs cs)

abbrev pub is_catch_all : Name → Bool
is_catch_all n =
    eqb_name n (b'a' ∷ b'l' ∷ b'l' ∷ [])
    || eqb_name n (b'a' ∷ b'l' ∷ b'l' ∷ b'_' ∷ b'o' ∷ b't' ∷ b'h' ∷ b'e' ∷ b'r' ∷ b's' ∷ [])

-- The order of the regular expressions; all and all_others come last.
unfoldable pub less_conf : PathConf → PathConf → Bool
less_conf c d =
    if is_catch_all c.name
    then false
    else if is_catch_all d.name
    then true
    else less_name c.name d.name

-- The configuration with what the expression captured, or an error.
pub data Found : Type 0 where
  found : PathConf → List Name → Found
  invalid_name : NameError → Found
  not_configured : Found

abbrev pub or_rest : PathConf → Option (List Name) → Found → Found
or_rest c none rest = rest
or_rest c (some m) rest = found c m

abbrev pub unless_invalid : Option NameError → Found → Found
unless_invalid none f = f
unless_invalid (some e) f = invalid_name e

abbrev pub or_else_match : Option PathConf → Found → Found
or_else_match none f = f
or_else_match (some c) f = found c []

module _ (submatch : ℕ → Name → Option (List Name)) where
  abbrev pub conf_submatch : PathConf → Name → Option (List Name)
  conf_submatch c name = elim c.regexp [ none ↦ none | some r ↦ submatch r name ]

  unfoldable pub first_match : Name → List PathConf → Found
  first_match name [] = not_configured
  first_match name (c ∷ cs) = or_rest c (conf_submatch c name) (first_match name cs)

  unfoldable pub find_path_conf :
      ((PathConf → PathConf → Bool) → List PathConf → List PathConf) → Confs → Name → Found
  find_path_conf sort_slice confs name = or_else_match (lookup_conf name confs) (
      unless_invalid (is_valid_path_name name)
        (first_match name (sort_slice less_conf (regexp_confs confs))))
