-- ===== src/StreamPath/Lifetime.antt =====
-- internal/core/path.go: `run` from its start to its end.
use ppmmx.Base.{
  ℕ, ◌+◌, ◌≡◌, refl, ap, sym, ◌∙◌, Bool, true, false, not, ◌&&◌, List, [], ◌∷◌, ◌++◌, if◌then◌else◌,
  arith,
}
use ppmmx.StreamPath.{
  has_static_source, remove_path, start_source, run_un_demand, Conf, Source, no_source, redirect,
  static, publisher, StreamPath, terminated, Effect, Outcome, done, panic, preceded_by, ◌>>=◌,
  Event,
}
use ppmmx.StreamPath.Handlers.{fail_held, set_available, set_not_available}
use ppmmx.StreamPath.Steps.{run_inner, finish, initialize, created, source_of, close_of, run}
use ppmmx.StreamPath.Accounting.{
  Accounts, fail_held-Accounts, set_available-Accounts, set_not_available-Accounts,
  nothing-Accounts, then_second, then_first,
}
use ppmmx.StreamPath.Conservation.{asked_by, run_inner-Accounts}
use ppmmx.StreamPath.Waiting.{panic-Accounts, if-Accounts, silent-Accounts}
use ppmmx.StreamPath.Answers.{answers, held, Keeps, answers-append}

-- `run`: the start, some events, the end.
unfoldable pub life : Conf → Bool → Bool → Bool → List Event → Outcome
life c tencent_enable mmx_enable stream_ok es =
    initialize c tencent_enable mmx_enable stream_ok
    >>= (λ (p : StreamPath). run_inner p es)
    >>= finish

-- An outcome with nothing on hold.
Empty : ℕ → Outcome → Type 0
Empty id (done p out) = held id p ≡ 0
Empty id panic = Unit

preceded-Empty :
    (id : ℕ) (out : List Effect) (o : Outcome) → Empty id o → Empty id (preceded_by out o)
unfolding Empty
preceded-Empty id out (done p more) h = h
preceded-Empty id out panic h = tt

then-Empty :
    (id : ℕ) (o : Outcome) (f : StreamPath → Outcome)
    → ((p : StreamPath) → Empty id (f p))
    → Empty id (o >>= f)
unfolding Empty
then-Empty id (done p out) f k = preceded-Empty id out (f p) (k p)
then-Empty id panic f k = tt

-- As `then-Empty`, from an outcome that is empty itself.
still-Empty :
    (id : ℕ) (o : Outcome) (f : StreamPath → Outcome)
    → Empty id o
    → ((p : StreamPath) → held id p ≡ 0 → Empty id (f p))
    → Empty id (o >>= f)
unfolding Empty
still-Empty id (done p out) f h k = preceded-Empty id out (f p) (k p h)
still-Empty id panic f h k = tt

module _ (id : ℕ) where
  close_of-silent : (s : Source) (q : StreamPath) → answers id (close_of s q) ≡ 0
  unfolding answers
  close_of-silent static q = ground arith
  close_of-silent (publisher a) q = refl
  close_of-silent no_source q = refl
  close_of-silent redirect q = refl

  hook-silent : (b : Bool) → answers id (if b then run_un_demand ∷ [] else []) ≡ 0
  unfolding answers
  hook-silent true = refl
  hook-silent false = refl

  finish-Accounts : (p : StreamPath) → Accounts id 0 p (finish p)
  unfolding finish answers
  finish-Accounts p =
      let failing : StreamPath → Outcome = λ (q : StreamPath). run (fail_held q terminated) in
      let closing : StreamPath → Outcome =
        λ (q : StreamPath). if q.stream then set_not_available q else done q [] in
      then_first id 0 p (done p (remove_path ∷ []) >>= failing >>= closing) _
        (then_first id 0 p (done p (remove_path ∷ []) >>= failing) closing
          (then_first id 0 p (done p (remove_path ∷ [])) failing
            (silent-Accounts id p p (remove_path ∷ []) refl refl)
            (λ q. fail_held-Accounts id q terminated))
          (λ q.
            if-Accounts id 0 q q.stream _ _ (set_not_available-Accounts id q)
              (nothing-Accounts id q)))
        (λ q.
          silent-Accounts id q q
            (close_of q.source q ++ (if q.on_un_demand_hook then run_un_demand ∷ [] else []))
            (answers-append id (close_of q.source q) _
              ∙ omega (arith, close_of-silent q.source q, hook-silent q.on_un_demand_hook))
            refl)

  finish-Empty : (p : StreamPath) → Empty id (finish p)
  unfolding finish Empty fail_held set_not_available
  finish-Empty p = ground arith

  source-silent : (b : Bool) → answers id (if b then start_source ∷ [] else []) ≡ 0
  unfolding answers
  source-silent true = refl
  source-silent false = refl

  initialize-Accounts :
      (c : Conf) (t m ok : Bool) → Accounts id 0 (created c t m) (initialize c t m ok)
  unfolding initialize
  initialize-Accounts c t m ok =
      let p : StreamPath = created c t m in
      then_first id 0 p
        (if c.always_available then if ok then run (set_available p) else panic else done p []) _
        (if-Accounts id 0 p c.always_available _ _
          (if-Accounts id 0 p ok _ _ (set_available-Accounts id p) (panic-Accounts id 0 p))
          (nothing-Accounts id p))
        (λ q.
          silent-Accounts id q (record q { source = source_of c })
            (if has_static_source c && not c.source_on_demand then start_source ∷ [] else [])
            (source-silent (has_static_source c && not c.source_on_demand)) refl)

  life-Accounts :
      (c : Conf) (t m ok : Bool) (es : List Event)
      → Accounts id (asked_by id es) (created c t m) (life c t m ok es)
  unfolding life
  life-Accounts c t m ok es =
      let p : StreamPath = created c t m in
      then_first id _ p (initialize c t m ok >>= (λ (q : StreamPath). run_inner q es)) finish
        (then_second id _ p (initialize c t m ok) _ (initialize-Accounts c t m ok)
          (λ q. run_inner-Accounts id q es))
        finish-Accounts

  life-Empty : (c : Conf) (t m ok : Bool) (es : List Event) → Empty id (life c t m ok es)
  unfolding life
  life-Empty c t m ok es = then-Empty id _ finish finish-Empty

  settled :
      (o : Outcome) (n : ℕ) (q : StreamPath) (out : List Effect)
      → o ≡ done q out
      → Keeps id n o
      → Empty id o
      → answers id out ≡ n
  unfolding Keeps Empty
  settled (done p before) n q out e k h = ap (λ (o : Outcome). sent o) (sym e) ∙ omega (arith, h, k)
    where
      sent : Outcome → ℕ
      sent (done r es) = answers id es
      sent panic = 0
  settled panic n q out e k h = cc

  -- When `run` comes to its end without a panic, every request that came (to describe, to add or
  -- remove a publisher or a reader, or from a static source that it is ready or not) is answered as
  -- often as it came, whatever the events: none is lost, and none is answered twice.
  pub life-answers :
      (c : Conf) (tencent_enable mmx_enable stream_ok : Bool) (es : List Event) (q : StreamPath)
      (out : List Effect)
      → life c tencent_enable mmx_enable stream_ok es ≡ done q out
      → answers id out ≡ asked_by id es
  life-answers c t m ok es q out h =
      settled (life c t m ok es) (asked_by id es + held id (created c t m)) q out h
        (life-Accounts c t m ok es) (life-Empty c t m ok es)
      ∙ omega arith
