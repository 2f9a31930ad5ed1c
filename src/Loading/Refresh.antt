-- ===== src/Loading/Refresh.antt =====
-- RefreshEndpoint of internal/daemon/upstream.go. The device is a parameter: `configure` is its
-- Configure on the given settings.
use lotsman.Prelude.{
  ◌≡◌, ◌≢◌, refl, sym, ap, subst, ◌∙◌, Bool, true, false, Option, none, some, List, [], ◌∷◌, ◌++◌,
  String, nat_eq, if◌then◌else◌, Bool-cases, Option-cases, ◌⊎◌, inl, inr, arith,
}
use mathlib.Core.Bool.{true≢false}
use lotsman.Bytes.{Text, codes, same_text}
use lotsman.Awgconf.{Peer, Key}
use lotsman.Awgconf.Parse.{Result, ok, err}
use lotsman.Awgconf.Values.{hex}
use lotsman.Loading.{Network, LoadError, Upstream, resolve_endpoint}

pub record Device (World : Type 0) : Type 0 where
  pub configure : Text → World → Option String × World

pub data RefreshError : Type 0 where
  unresolvable : LoadError → RefreshError
  refused : String → RefreshError

-- The peer's key, `update_only` and the endpoint.
unfoldable pub endpoint_settings : Key → Text → Text
unfolding hex
endpoint_settings key resolved =
    codes "public_key="
    ++ hex key
    ++ (10 ∷ codes "update_only=true")
    ++ (10 ∷ codes "endpoint=")
    ++ resolved
    ++ 10 ∷ []

-- `u.Conf.Peers[0].Endpoint = resolved`
abbrev pub first_endpoint : Text → List Peer → List Peer
first_endpoint t [] = []
first_endpoint t (p ∷ ps) = record p { endpoint = t } ∷ ps

abbrev pub with_endpoint : Text → Upstream → Upstream
with_endpoint t u = record u { conf = record u.conf { peers = first_endpoint t u.conf.peers } }

pub Result-cases :
    {E A : Type 0} (r : Result E A) → ((e : E) × (r ≡ err e)) ⊎ ((a : A) × (r ≡ ok a))
Result-cases (err e) = inl (e, refl)
Result-cases (ok a) = inr (a, refl)

module _ {World : Type 0} (net : Network) (device : Device World) where
  abbrev pub Refreshed : Type 0
  Refreshed = Result RefreshError Bool × Upstream × World

  abbrev answered : Text → Upstream → Option String × World → Refreshed
  answered resolved u (some e, w) = (err (refused e), u, w)
  answered resolved u (none, w) = (ok true, with_endpoint resolved u, w)

  -- Over the upstream's peers; there is always one, and without one the code would not return.
  unfoldable move : Text → List Peer → Upstream → World → Refreshed
  unfolding endpoint_settings
  move resolved [] u w = (ok false, u, w)
  move resolved (p ∷ ps) u w =
      if same_text resolved p.endpoint
      then (ok false, u, w)
      else answered resolved u (device.configure (endpoint_settings p.public_key resolved) w)

  unfoldable pub refresh_endpoint : Upstream → World → Refreshed
  unfolding resolve_endpoint move
  refresh_endpoint u w = elim (net.addr_port u.endpoint) [
    | some v6 ↦ (ok false, u, w)
    | none ↦ elim (resolve_endpoint net u.endpoint) [
      | err e ↦ (err (unresolvable e), u, w)
      | ok resolved ↦ move resolved u.conf.peers u w
    ]
  ]

  -- What the device answers when it is told that the peer is at `resolved`.
  abbrev pub told : Peer → Text → World → Option String × World
  told p resolved w = device.configure (endpoint_settings p.public_key resolved) w

  -- There is nothing to move: the provider's file has an address, or the name resolves to the address
  -- that the peer has.
  abbrev pub IsCurrent : Upstream → Peer → Type 0
  IsCurrent u p =
      ((v6 : Bool) × (net.addr_port u.endpoint ≡ some v6))
      ⊎ ((net.addr_port u.endpoint ≡ none) × (resolve_endpoint net u.endpoint ≡ ok p.endpoint))

  -- The name resolves to an address that the peer does not have.
  abbrev pub HasMoved : Upstream → Peer → Text → Type 0
  HasMoved u p resolved =
      (net.addr_port u.endpoint ≡ none)
      × (resolve_endpoint net u.endpoint ≡ ok resolved)
      × (resolved ≢ p.endpoint)

  abbrev pub Unresolved : Upstream → World → Refreshed → Type 0
  Unresolved u w r =
      (e : LoadError) × (net.addr_port u.endpoint ≡ none)
      × (resolve_endpoint net u.endpoint ≡ err e)
      × (r ≡ (err (unresolvable e), u, w))

  -- The upstream is as it was, though its name resolves to another address.
  abbrev pub Turned : Upstream → Peer → World → Refreshed → Type 0
  Turned u p w r =
      (resolved : Text) × (e : String) × HasMoved u p resolved
      × ((told p resolved w).0 ≡ some e)
      × (r ≡ (err (refused e), u, (told p resolved w).1))

  -- The device has taken the new address, the upstream has it too, and the next refresh keeps it.
  abbrev pub Moved : Upstream → Peer → World → Refreshed → Type 0
  Moved u p w r =
      (resolved : Text) × HasMoved u p resolved
      × ((told p resolved w).0 ≡ none)
      × (r ≡ (ok true, with_endpoint resolved u, (told p resolved w).1))
      × (refresh_endpoint r.1 r.2 ≡ (ok false, r.1, r.2))

  abbrev pub IsSettled : Upstream → Peer → World → Refreshed → Type 0
  IsSettled u p w r =
      (IsCurrent u p × (r ≡ (ok false, u, w))) ⊎ Unresolved u w r ⊎ Turned u p w r ⊎ Moved u p w r

  same_text-eq : (a b : Text) → same_text a b ≡ true → a ≡ b
  same_text-eq [] [] h = refl
  same_text-eq [] (y ∷ b) h = absurd (ground (arith, h))
  same_text-eq (x ∷ a) [] h = absurd (ground (arith, h))
  same_text-eq (x ∷ a) (y ∷ b) h = ground (arith, same_text-eq a b)

  same_text_refl : (t : Text) → same_text t t ≡ true
  same_text_refl [] = refl
  same_text_refl (b ∷ bs) = ground (arith, same_text_refl bs)

  module _ (u : Upstream) (resolved : Text) (n : net.addr_port u.endpoint ≡ none)
      (e : resolve_endpoint net u.endpoint ≡ ok resolved) where
    again :
        (v : Upstream) (w : World)
        → v.endpoint ≡ u.endpoint
        → refresh_endpoint v w ≡ move resolved v.conf.peers v w
    unfolding refresh_endpoint
    again v w s =
        let a : net.addr_port v.endpoint ≡ none = ap net.addr_port s ∙ n in
        let b : resolve_endpoint net v.endpoint ≡ ok resolved = ap (resolve_endpoint net) s ∙ e in
        rw (a, refresh_endpoint) (rw (b, refresh_endpoint) refl)

    move_same :
        (v : Upstream) (p : Peer) (ps : List Peer) (w : World)
        → same_text resolved p.endpoint ≡ true
        → move resolved (p ∷ ps) v w ≡ (ok false, v, w)
    unfolding move
    move_same v p ps w h = rw (h, move) refl

    answered-cases :
        (o : Option String × World)
        → ((x : String) × (o.0 ≡ some x) × (answered resolved u o ≡ (err (refused x), u, o.1)))
          ⊎ ((o.0 ≡ none) × (answered resolved u o ≡ (ok true, with_endpoint resolved u, o.1)))
    answered-cases (some x, w) = inl (x, refl, refl)
    answered-cases (none, w) = inr (refl, refl)

    settled_after :
        (p : Peer) (ps : List Peer) (w : World)
        → u.conf.peers ≡ p ∷ ps
        → refresh_endpoint (with_endpoint resolved u) w ≡ (ok false, with_endpoint resolved u, w)
    settled_after p ps w h =
        let moved = with_endpoint resolved u in
        again moved w refl
        ∙ ap (λ qs. move resolved (first_endpoint resolved qs) moved w) h
        ∙ move_same moved (record p { endpoint = resolved }) ps w (same_text_refl resolved)

    answered-IsSettled :
        (p : Peer) (ps : List Peer) (w : World)
        → u.conf.peers ≡ p ∷ ps
        → resolved ≢ p.endpoint
        → IsSettled u p w (answered resolved u (told p resolved w))
    answered-IsSettled p ps w h other = elim (answered-cases (told p resolved w)) [
      | inl (x, f, g) ↦ inr (inr (inl (resolved, x, (n, e, other), f, g)))
      | inr (f, g) ↦ subst (IsSettled u p w) (sym g) (
          inr (
            inr
              (inr (resolved, (n, e, other), f, refl, settled_after p ps (told p resolved w).1 h))))
    ]

    move_other :
        (p : Peer) (ps : List Peer) (w : World)
        → same_text resolved p.endpoint ≡ false
        → move resolved (p ∷ ps) u w ≡ answered resolved u (told p resolved w)
    unfolding move
    move_other p ps w h = rw (h, move) refl

    move-IsSettled :
        (p : Peer) (ps : List Peer) (w : World)
        → u.conf.peers ≡ p ∷ ps
        → IsSettled u p w (move resolved (p ∷ ps) u w)
    move-IsSettled p ps w h = elim (Bool-cases (same_text resolved p.endpoint)) [
      | inl k ↦
          inl
            (inr (n, e ∙ ap (λ t. ok t) (same_text-eq resolved p.endpoint k)), move_same u p ps w k)
      | inr k ↦ subst (IsSettled u p w) (sym (move_other p ps w k)) (
          answered-IsSettled p ps w h (λ same.
            absurd (true≢false (sym (same_text_refl resolved) ∙ ap (same_text resolved) same ∙ k))))
    ]

  literal_lem :
      (u : Upstream) (w : World) (v6 : Bool)
      → net.addr_port u.endpoint ≡ some v6
      → refresh_endpoint u w ≡ (ok false, u, w)
  unfolding refresh_endpoint
  literal_lem u w v6 n = rw (n, refresh_endpoint) refl

  unresolved_lem :
      (u : Upstream) (w : World) (e : LoadError)
      → net.addr_port u.endpoint ≡ none
      → resolve_endpoint net u.endpoint ≡ err e
      → refresh_endpoint u w ≡ (err (unresolvable e), u, w)
  unfolding refresh_endpoint
  unresolved_lem u w e n h = rw (n, refresh_endpoint) (rw (h, refresh_endpoint) refl)

  -- RefreshEndpoint of an upstream that has a peer, as those that are loaded have. With a literal
  -- address in the provider's file, or a name that resolves to the peer's address, nothing changes and
  -- the device is not called. A name that does not resolve is an error and changes nothing. If it
  -- resolves to another address, the device is told; if it refuses, that is the error and the upstream
  -- stays as it was, so that the next refresh tries again; if it accepts, the upstream has the new
  -- address, and a refresh after it, with the same answers from the resolver, changes nothing.
  pub refresh_endpoint-IsSettled :
      (u : Upstream) (p : Peer) (ps : List Peer) (w : World)
      → u.conf.peers ≡ p ∷ ps
      → IsSettled u p w (refresh_endpoint u w)
  refresh_endpoint-IsSettled u p ps w h = elim (Option-cases (net.addr_port u.endpoint)) [
    | inr (v6, n) ↦ inl (inl (v6, n), literal_lem u w v6 n)
    | inl n ↦ elim (Result-cases (resolve_endpoint net u.endpoint)) [
      | inl (e, f) ↦ inr (inl (e, n, f, unresolved_lem u w e n f))
      | inr (resolved, f) ↦
          subst (IsSettled u p w)
            (sym (again u resolved n f u w refl ∙ ap (λ qs. move resolved qs u w) h))
            (move-IsSettled u resolved n f p ps w h)
    ]
  ]
