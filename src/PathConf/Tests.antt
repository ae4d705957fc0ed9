-- ===== src/PathConf/Tests.antt =====
-- internal/conf/path.go on concrete names and configurations.
use Prim.Native.Char.{code}
use Prim.Native.String.{String}
use ppmmx.Base.{
  ℕ, ◌≡◌, ◌≢◌, refl, Bool, true, Option, none, some, List, [], ◌∷◌, ◌==◌, if◌then◌else◌,
}
use ppmmx.PathConf.{
  Name, eqb_name, less_name, is_path_char, all_path_chars, any_dot_segment, split_slash,
  dot_segment, is_valid_path_name, PathConf, Confs, lookup_conf, regexp_confs, less_conf, found,
  first_match, find_path_conf,
}
use ppmmx.PathConf.Names.{is_valid_path_name-dots}

abbrev bytes : String → Name
bytes String.[] = []
bytes (String.◌∷◌ c s) = code c ∷ bytes s

dots_refused : is_valid_path_name (bytes "live/../etc") ≡ some dot_segment
unfolding is_valid_path_name all_path_chars is_path_char any_dot_segment split_slash eqb_name
dots_refused = refl

dots_in_a_word : is_valid_path_name (bytes "live/a..b") ≡ none
unfolding is_valid_path_name all_path_chars is_path_char any_dot_segment split_slash eqb_name
dots_in_a_word = refl

is_valid_path_name-dots_example : is_valid_path_name (bytes "live/../etc") ≢ none
is_valid_path_name-dots_example =
    is_valid_path_name-dots true (bytes "live/") (bytes "/etc") refl refl

abbrev camera : PathConf
camera = record { name = bytes "cam"; regexp = none; reloadable = 0; fixed = 0 }

abbrev starts_with_a : PathConf
starts_with_a = record { name = bytes "~^a"; regexp = some 1; reloadable = 0; fixed = 0 }

abbrev all_conf : PathConf
all_conf = record { name = bytes "all"; regexp = some 2; reloadable = 0; fixed = 0 }

abbrev confs : Confs
confs = (bytes "all", all_conf) ∷ (bytes "cam", camera) ∷ (bytes "~^a", starts_with_a) ∷ []

-- Number 1 is ^a, and number 2 is ^.*$.
abbrev submatch : ℕ → Name → Option (List Name)
submatch r [] = if r == 2 then some ([] ∷ []) else none
submatch r (c ∷ cs) =
    if r == 2 then some ((c ∷ cs) ∷ []) else if c == b'a' then some (bytes "a" ∷ []) else none

abbrev put_conf : (PathConf → PathConf → Bool) → PathConf → List PathConf → List PathConf
put_conf less c [] = c ∷ []
put_conf less c (d ∷ ds) = if less d c then d ∷ put_conf less c ds else c ∷ d ∷ ds

abbrev insertion_sort : (PathConf → PathConf → Bool) → List PathConf → List PathConf
insertion_sort less [] = []
insertion_sort less (c ∷ cs) = put_conf less c (insertion_sort less cs)

all_comes_last :
    find_path_conf submatch insertion_sort confs (bytes "ab") ≡ found starts_with_a (bytes "a" ∷ [])
unfolding find_path_conf first_match lookup_conf is_valid_path_name all_path_chars is_path_char
    any_dot_segment split_slash regexp_confs less_conf less_name eqb_name
all_comes_last = refl
