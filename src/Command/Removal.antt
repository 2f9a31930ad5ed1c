-- ===== src/Command/Removal.antt =====
-- What `user rm` of cmd/lotsman/user.go deletes.
use Prim.Native.String.{String}
use lotsman.Prelude.{
  ◌≡◌, refl, sym, ap, ◌∙◌, ◌↔◌, ◌⊎◌, subst, inl, inr, Bool, true, false, not, ◌&&◌, ◌||◌, Option,
  none, some, List, In, any, filter, filter-In, In-filter, ◌==◌, nat_eq, string_eq, if◌then◌else◌,
  Bool-cases, Option-cases, arith, any-In,
}
use mathlib.Core.Bool.{false≢true}
use lotsman.Store.{
  delete, Tables, User, Row, Error, Statement, user_of, selects, delete_user, delete_peers,
}
use lotsman.Command.{
  Flags, UserArgs, CommandError, Parsed, refused, accepted, parse_user_args, remove_selected,
  removed, user_remove,
}

-- The peers that the arguments name: the user's; of the device, unless neither flag is given; of the
-- profile, if one is given.
abbrev pub asked : UserArgs → User → Row → Bool
asked a u r =
    r.user_id == u.id
    && ((a.profile == "" && not a.device_set) || r.device == a.device)
    && (a.profile == "" || r.profile == a.profile)

abbrev Exact : UserArgs → Tables → Option Error × Tables → Type 0
Exact a t (some e, after) = after ≡ t
Exact a t (none, after) =
    (u : User) × (user_of t.users a.name ≡ some u)
    × ((r : Row) → In r after.rows ↔ (In r t.rows × (asked a u r ≡ false)))

filter_iff :
    (test : Row → Bool) (rows : List Row) (r : Row)
    → In r (filter (λ x. not (test x)) rows) ↔ (In r rows × (test r ≡ false))
filter_iff test rows r = (
  λ m. let (n, e) = filter-In (λ x. not (test x)) r rows m in (n, ground (arith, e)),
  λ h. In-filter (λ x. not (test x)) r rows h.0 (ground (arith, h)),
)

module _ (fault : Statement → Option String) (a : UserArgs) (t : Tables) where
  no_user :
      (profile : Option String) (r : Row)
      → user_of t.users a.name ≡ none
      → selects t.users a.name a.device profile r ≡ false
  unfolding selects
  no_user profile r e = rw (e, selects) refl

  rows_left :
      (profile : Option String)
      → ((u : User)
          → user_of t.users a.name ≡ some u
          → (r : Row) → selects t.users a.name a.device profile r ≡ asked a u r)
      → any (selects t.users a.name a.device profile) t.rows ≡ true
      → (u : User) × (user_of t.users a.name ≡ some u)
        × ((r : Row)
            → In r (filter (λ x. not (selects t.users a.name a.device profile x)) t.rows)
              ↔ (In r t.rows × (asked a u r ≡ false)))
  rows_left profile same b = elim (Option-cases (user_of t.users a.name)) [
    | inl e ↦
        let (r, m, k) = any-In (selects t.users a.name a.device profile) t.rows b in
        absurd (false≢true (sym (no_user profile r e) ∙ k))
    | inr (u, e) ↦ (
      u,
      e,
      λ r.
          let (there, back) = filter_iff (selects t.users a.name a.device profile) t.rows r in
          (λ m. ((there m).0, sym (same u e r) ∙ (there m).1), λ h. back (h.0, same u e r ∙ h.1)),
    )
  ]

  delete_peers-Exact :
      (profile : Option String)
      → ((u : User)
          → user_of t.users a.name ≡ some u
          → (r : Row) → selects t.users a.name a.device profile r ≡ asked a u r)
      → Exact a t (delete_peers fault a.name a.device profile t)
  unfolding delete_peers
  delete_peers-Exact profile same = elim (Option-cases (fault delete)) [
    | inr (e, f) ↦ rw (f, delete_peers) refl
    | inl f ↦ elim (Bool-cases (any (selects t.users a.name a.device profile) t.rows)) [
      | inr b ↦ rw (f, delete_peers) (rw (b, delete_peers) refl)
      | inl b ↦ rw (f, delete_peers) (rw (b, delete_peers) (rows_left profile same b))
    ]
  ]

  by_user :
      a.profile == "" ≡ true
      → a.device_set ≡ false
      → (u : User) (r : Row)
      → In r (filter (λ x. not (x.user_id == u.id)) t.rows) ↔ (In r t.rows × (asked a u r ≡ false))
  by_user p d u r =
      let (there, back) = filter_iff (λ (x : Row). x.user_id == u.id) t.rows r in
      let same : asked a u r ≡ (r.user_id == u.id) = ground (arith, p, d) in
      (λ m. ((there m).0, same ∙ (there m).1), λ h. back (h.0, sym same ∙ h.1))

  delete_user-Exact :
      a.profile == "" ≡ true → a.device_set ≡ false → Exact a t (delete_user fault a.name t)
  unfolding delete_user
  delete_user-Exact p d = elim (Option-cases (fault delete)) [
    | inr (e, f) ↦ rw (f, delete_user) refl
    | inl f ↦ elim (Option-cases (user_of t.users a.name)) [
      | inl e ↦ rw (f, delete_user) (rw (e, delete_user) refl)
      | inr (u, e) ↦ rw (f, delete_user) (rw (e, delete_user) (u, e, by_user p d u))
    ]
  ]

  selects-asked :
      (profile : Option String) (u : User) (r : Row)
      → user_of t.users a.name ≡ some u
      → selects t.users a.name a.device profile r ≡ (
          r.user_id == u.id
          && r.device == a.device
          && elim profile [ none ↦ true | some p ↦ r.profile == p ])
  unfolding selects
  selects-asked profile u r e = rw (e, selects) refl

  remove_selected-eq :
      (p d : Bool)
      → a.profile == "" ≡ p
      → a.device_set ≡ d
      → remove_selected fault a t ≡ (
          if not p
          then delete_peers fault a.name a.device (some a.profile) t
          else if d
          then delete_peers fault a.name a.device none t
          else delete_user fault a.name t)
  unfolding remove_selected
  remove_selected-eq p d e f =
      ap
        (λ q.
          if not q
          then delete_peers fault a.name a.device (some a.profile) t
          else if a.device_set
          then delete_peers fault a.name a.device none t
          else delete_user fault a.name t)
        e
      ∙ ap
          (λ q.
            if not p
            then delete_peers fault a.name a.device (some a.profile) t
            else if q
            then delete_peers fault a.name a.device none t
            else delete_user fault a.name t)
          f

  remove_selected-Exact : Exact a t (remove_selected fault a t)
  remove_selected-Exact = elim (Bool-cases (a.profile == "")) [
    | inr p ↦ subst (Exact a t) (sym (remove_selected-eq false a.device_set p refl)) (
        delete_peers-Exact (some a.profile)
          (λ u e r. selects-asked (some a.profile) u r e ∙ ground (arith, p)))
    | inl p ↦ elim (Bool-cases a.device_set) [
      | inl d ↦
          subst (Exact a t) (sym (remove_selected-eq true true p d))
            (delete_peers-Exact none (λ u e r. selects-asked none u r e ∙ ground (arith, p, d)))
      | inr d ↦ subst (Exact a t) (sym (remove_selected-eq true false p d)) (delete_user-Exact p d)
    ]
  ]

-- An error of the command leaves the tables as they were. Without one, the arguments were accepted,
-- the user exists, and of the peers exactly those that the arguments name are gone.
abbrev pub IsRemoved :
    (List String → Option Flags) → List String → Tables → Option CommandError × Tables → Type 0
IsRemoved flags args t (some e, after) = after ≡ t
IsRemoved flags args t (none, after) =
    (a : UserArgs) × (u : User) × (parse_user_args flags false args ≡ accepted a)
    × (user_of t.users a.name ≡ some u)
    × ((r : Row) → In r after.rows ↔ (In r t.rows × (asked a u r ≡ false)))

Parsed-cases :
    (p : Parsed) → ((e : CommandError) × (p ≡ refused e)) ⊎ ((a : UserArgs) × (p ≡ accepted a))
Parsed-cases (refused e) = inl (e, refl)
Parsed-cases (accepted a) = inr (a, refl)

module _ (fault : Statement → Option String) (flags : List String → Option Flags) where
  removed_lem :
      (args : List String) (a : UserArgs) (t : Tables) (o : Option Error × Tables)
      → parse_user_args flags false args ≡ accepted a
      → Exact a t o
      → IsRemoved flags args t (removed fault o)
  removed_lem args a t (some e, after) p x = x
  removed_lem args a t (none, after) p (u, e, f) = (a, u, p, e, f)

  -- `user rm` deletes exactly the peers that its arguments name, or, if it reports an error, nothing.
  pub user_remove-IsRemoved :
      (opened : Option String) (args : List String) (t : Tables)
      → IsRemoved flags args t (user_remove fault flags opened args t)
  unfolding user_remove
  user_remove-IsRemoved opened args t = elim (Parsed-cases (parse_user_args flags false args)) [
    | inl (e, p) ↦ rw (p, user_remove) refl
    | inr (a, p) ↦ elim (Option-cases opened) [
      | inr (e, o) ↦ rw (p, user_remove) (rw o refl)
      | inl o ↦
          rw (p, user_remove)
            (rw o (
              removed_lem args a t (remove_selected fault a t) p (remove_selected-Exact fault a t)))
    ]
  ]
