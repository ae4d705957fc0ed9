-- ===== src/PathManager/Handlers.antt =====
-- internal/core/path_manager.go: what the handlers that hand a path out come to.
use ppmmx.Base.{ℕ, ◌≡◌, refl, Bool, true, false, not, Option, none, some, List, if◌then◌else◌}
use ppmmx.PathConf.{Name, PathConf, Found, found, invalid_name, not_configured, find_path_conf}
use ppmmx.PathManager.{
  Manager, Access, Refusal, Handled, hand_out, with_conf, with_user, authenticated, do_add_reader,
  do_add_publisher, is_stream_allowed, differs, refuse,
}

module _ (P : Handled → Type 0) where
  with_conf-Holds :
      (m : Manager) (f : Found) (go_on : PathConf → List Name → Handled)
      → ((why : Refusal) → P (refuse m why))
      → ((c : PathConf) (matches : List Name) → f ≡ found c matches → P (go_on c matches))
      → P (with_conf m f go_on)
  with_conf-Holds m (found c matches) go_on r h = h c matches refl
  with_conf-Holds m (invalid_name e) go_on r h = r _
  with_conf-Holds m not_configured go_on r h = r _

  with_user-Holds :
      (m : Manager) (user : Option ℕ) (go_on : Option ℕ → Handled)
      → ((why : Refusal) → P (refuse m why))
      → ((u : Option ℕ) → P (go_on u))
      → P (with_user m user go_on)
  with_user-Holds m none go_on r h = r _
  with_user-Holds m (some u) go_on r h = h (some u)

  if-Holds : (b : Bool) (x y : Handled) → P x → P y → P (if b then x else y)
  if-Holds true x y h k = h
  if-Holds false x y h k = k

  module _ (submatch : ℕ → Name → Option (List Name))
      (sort_slice : (PathConf → PathConf → Bool) → List PathConf → List PathConf)
      (authenticate : ℕ → Option ℕ) (m : Manager) (a : Access)
      (r : (why : Refusal) → P (refuse m why))
      (h : (c : PathConf) (matches : List Name) (user : Option ℕ)
        → find_path_conf submatch sort_slice m.path_confs a.name ≡ found c matches
        → P (hand_out m c matches a.name user)) where
    authenticated-Holds :
        (go_on : Option ℕ → Handled)
        → ((u : Option ℕ) → P (go_on u))
        → P (authenticated authenticate m a go_on)
    authenticated-Holds go_on k =
        if-Holds a.skip_auth _ _ (k none) (with_user-Holds m (authenticate a.request) go_on r k)

    pub do_add_reader-Holds : P (do_add_reader submatch sort_slice authenticate m a)
    unfolding do_add_reader
    do_add_reader-Holds =
        with_conf-Holds m (find_path_conf submatch sort_slice m.path_confs a.name) _ r
          (λ c matches e. authenticated-Holds _ (λ u. h c matches u e))

    pub do_add_publisher-Holds :
        (conf_to_compare : Option PathConf)
        → P (do_add_publisher submatch sort_slice authenticate m a conf_to_compare)
    unfolding do_add_publisher
    do_add_publisher-Holds conf_to_compare =
        with_conf-Holds m (find_path_conf submatch sort_slice m.path_confs a.name) _ r
          (λ c matches e. if-Holds (not (is_stream_allowed m a.name)) _ _ (r _) (
            if-Holds (differs conf_to_compare c) _ _ (r _)
              (authenticated-Holds _ (λ u. h c matches u e))))
