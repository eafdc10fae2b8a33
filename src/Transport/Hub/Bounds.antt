-- ===== src/Transport/Hub/Bounds.antt =====
-- internal/adapter/transport/ws: the capacity of the hub's channels, and its clients' ids.
use crypto_price_aggregator.Base.{
  ℕ, ◌+◌, ◌≤◌, ◌≡◌, ◌≢◌, refl, sym, ◌∙◌, subst, ◌⊎◌, inl, inr, Bool, Bool-cases, not, ◌&&◌, String,
  List, [], ◌∷◌, ◌++◌, map, Option, none, some, ltb, ◌==◌, arith, length, length-append, str_eq,
  keep_if, All, All-append,
}
use crypto_price_aggregator.Domain.{Price}
use crypto_price_aggregator.App.Validator.{contains}
use crypto_price_aggregator.Transport.Hub.{
  Client, Hub, ClientMessage, new_hub, stop, drain, write_next, on_price_update, offer, broadcast,
  run_once, add_client, update_client_subscriptions, set_coins, coins_of, handle_message, close,
  updates_capacity, send_capacity,
}

module _ {D F : Type 0} where
  -- A client's channel is within its capacity, and its id was given.
  pub record IsGood (last : ℕ) (c : Client D F) : Type 0 where
    pub sends : length c.sent ≤ send_capacity
    pub given : c.id ≤ last

  -- No id stands twice.
  abbrev pub Fresh : ℕ → List (Client D F) → Type 0
  Fresh id = All (λ c. c.id ≢ id)

  abbrev pub OwnIds : List (Client D F) → Type 0
  OwnIds [] = Unit
  OwnIds (c ∷ cs) = Fresh c.id cs × OwnIds cs

  pub record IsValid (h : Hub D F) : Type 0 where
    pub queue : length h.updates ≤ updates_capacity
    pub good : All (IsGood h.next_id) h.clients
    pub own : OwnIds h.clients

  -- A step of the hub: an update comes, the loop takes one, the hub stops, a client's writer takes a message,
  -- or a connection sends one or ends.
  pub data Step : Hub D F → Hub D F → Type 0 where
    updated : (price : Price D F) (h : Hub D F) → Step h (on_price_update price h)
    ran : (h : Hub D F) → Step h (run_once h)
    stopped : (h : Hub D F) → Step h (stop h)
    wrote : (id : ℕ) (h : Hub D F) → Step h (write_next id h)
    sent :
        (cm : ClientMessage) (client : Option ℕ) (h : Hub D F)
        → Step h (handle_message cm (client, h)).1
    closed : (client : Option ℕ) (h : Hub D F) → Step h (close (client, h))

  offer-IsGood :
      (last : ℕ) (price : Price D F) (c : Client D F) → IsGood last c → IsGood last (offer price c)
  unfolding offer
  offer-IsGood last price c g = record {
    sends = ground (arith, length-append c.sent (price ∷ []), g.sends);
    given = ground (arith, g.given);
  }

  offer-id : (price : Price D F) (c : Client D F) → (offer price c).id ≡ c.id
  unfolding offer
  offer-id price c = ground arith

  map-offer-IsGood :
      (last : ℕ) (price : Price D F) (cs : List (Client D F))
      → All (IsGood last) cs
      → All (IsGood last) (map (offer price) cs)
  map-offer-IsGood last price [] g = tt
  map-offer-IsGood last price (c ∷ cs) g =
      (offer-IsGood last price c g.0, map-offer-IsGood last price cs g.1)

  map-offer-Fresh :
      (id : ℕ) (price : Price D F) (cs : List (Client D F))
      → Fresh id cs
      → Fresh id (map (offer price) cs)
  map-offer-Fresh id price [] f = tt
  map-offer-Fresh id price (c ∷ cs) f =
      ((λ e. f.0 (sym (offer-id price c) ∙ e)), map-offer-Fresh id price cs f.1)

  map-offer-OwnIds :
      (price : Price D F) (cs : List (Client D F)) → OwnIds cs → OwnIds (map (offer price) cs)
  map-offer-OwnIds price [] o = tt
  map-offer-OwnIds price (c ∷ cs) o = (
    subst (λ i. Fresh i (map (offer price) cs)) (sym (offer-id price c))
        (map-offer-Fresh c.id price cs o.0),
    map-offer-OwnIds price cs o.1,
  )

  set_coins-IsGood :
      (last id : ℕ) (coins : List String) (cs : List (Client D F))
      → All (IsGood last) cs
      → All (IsGood last) (set_coins id coins cs)
  unfolding set_coins
  set_coins-IsGood last id coins [] g = tt
  set_coins-IsGood last id coins (c ∷ cs) g = elim (Bool-cases (c.id == id)) [
    | inl e ↦
        rw e
          (record { sends = g.0.sends; given = g.0.given }, set_coins-IsGood last id coins cs g.1)
    | inr e ↦ rw e (g.0, set_coins-IsGood last id coins cs g.1)
  ]

  set_coins-Fresh :
      (i id : ℕ) (coins : List String) (cs : List (Client D F))
      → Fresh i cs
      → Fresh i (set_coins id coins cs)
  unfolding set_coins
  set_coins-Fresh i id coins [] f = tt
  set_coins-Fresh i id coins (c ∷ cs) f = elim (Bool-cases (c.id == id)) [
    | inl e ↦ rw e (f.0, set_coins-Fresh i id coins cs f.1)
    | inr e ↦ rw e (f.0, set_coins-Fresh i id coins cs f.1)
  ]

  set_coins-OwnIds :
      (id : ℕ) (coins : List String) (cs : List (Client D F))
      → OwnIds cs
      → OwnIds (set_coins id coins cs)
  unfolding set_coins
  set_coins-OwnIds id coins [] o = tt
  set_coins-OwnIds id coins (c ∷ cs) o = elim (Bool-cases (c.id == id)) [
    | inl e ↦ rw e (set_coins-Fresh c.id id coins cs o.0, set_coins-OwnIds id coins cs o.1)
    | inr e ↦ rw e (set_coins-Fresh c.id id coins cs o.0, set_coins-OwnIds id coins cs o.1)
  ]

  rest-le :
      (sent : List (Price D F))
      → length sent ≤ send_capacity
      → length (elim sent [ [] ↦ [] | message ∷ later ↦ later ]) ≤ send_capacity
  rest-le [] h = h
  rest-le (p ∷ ps) h = omega (arith, h)

  drain-IsGood :
      (last id : ℕ) (cs : List (Client D F))
      → All (IsGood last) cs
      → All (IsGood last) (drain id cs)
  unfolding drain
  drain-IsGood last id [] g = tt
  drain-IsGood last id (c ∷ cs) g = elim (Bool-cases (c.id == id)) [
    | inl e ↦ rw e (
      record { sends = rest-le c.sent g.0.sends; given = g.0.given },
      drain-IsGood last id cs g.1,
    )
    | inr e ↦ rw e (g.0, drain-IsGood last id cs g.1)
  ]

  drain-Fresh : (i id : ℕ) (cs : List (Client D F)) → Fresh i cs → Fresh i (drain id cs)
  unfolding drain
  drain-Fresh i id [] f = tt
  drain-Fresh i id (c ∷ cs) f = elim (Bool-cases (c.id == id)) [
    | inl e ↦ rw e (f.0, drain-Fresh i id cs f.1)
    | inr e ↦ rw e (f.0, drain-Fresh i id cs f.1)
  ]

  drain-OwnIds : (id : ℕ) (cs : List (Client D F)) → OwnIds cs → OwnIds (drain id cs)
  unfolding drain
  drain-OwnIds id [] o = tt
  drain-OwnIds id (c ∷ cs) o = elim (Bool-cases (c.id == id)) [
    | inl e ↦ rw e (drain-Fresh c.id id cs o.0, drain-OwnIds id cs o.1)
    | inr e ↦ rw e (drain-Fresh c.id id cs o.0, drain-OwnIds id cs o.1)
  ]

  keep-All :
      (P : Client D F → Type 0) (p : Client D F → Bool) (cs : List (Client D F))
      → All P cs
      → All P (keep_if p cs)
  keep-All P p [] h = tt
  keep-All P p (c ∷ cs) h = elim (Bool-cases (p c)) [
    | inl e ↦ rw e (h.0, keep-All P p cs h.1)
    | inr e ↦ rw e (keep-All P p cs h.1)
  ]

  keep-OwnIds : (p : Client D F → Bool) (cs : List (Client D F)) → OwnIds cs → OwnIds (keep_if p cs)
  keep-OwnIds p [] o = tt
  keep-OwnIds p (c ∷ cs) o = elim (Bool-cases (p c)) [
    | inl e ↦ rw e (keep-All (λ d. d.id ≢ c.id) p cs o.0, keep-OwnIds p cs o.1)
    | inr e ↦ rw e (keep-OwnIds p cs o.1)
  ]

  raise-IsGood :
      (last : ℕ) (cs : List (Client D F)) → All (IsGood last) cs → All (IsGood (last + 1)) cs
  raise-IsGood last [] g = tt
  raise-IsGood last (c ∷ cs) g =
      (record { sends = g.0.sends; given = omega (arith, g.0.given) }, raise-IsGood last cs g.1)

  new-OwnIds :
      (last : ℕ) (coins : List String) (cs : List (Client D F))
      → All (IsGood last) cs
      → OwnIds cs
      → OwnIds (cs ++ record { id = last + 1; sent = []; coin_ids = coins } ∷ [])
  new-OwnIds last coins [] g o = (tt, tt)
  new-OwnIds last coins (c ∷ cs) g o = (
    All-append (λ d. d.id ≢ c.id) cs _ o.0 ((λ e. omega (arith, e, g.0.given)), tt),
    new-OwnIds last coins cs g.1 o.1,
  )

  on_price_update-IsValid :
      (price : Price D F) (h : Hub D F) → IsValid h → IsValid (on_price_update price h)
  unfolding on_price_update
  on_price_update-IsValid price h v =
      elim (Bool-cases (not h.done && ltb (length h.updates) updates_capacity)) [
        | inl e ↦ rw e (record {
          queue = ground (arith, e, length-append h.updates (price ∷ []));
          good = v.good;
          own = v.own;
        })
        | inr e ↦ rw e v
      ]

  broadcast-IsValid : (price : Price D F) (h : Hub D F) → IsValid h → IsValid (broadcast price h)
  unfolding broadcast
  broadcast-IsValid price h v = record {
    queue = v.queue;
    good = map-offer-IsGood h.next_id price h.clients v.good;
    own = map-offer-OwnIds price h.clients v.own;
  }

  Nil-cases :
      (xs : List (Price D F))
      → (xs ≡ []) ⊎ ((x : Price D F) × (rest : List (Price D F)) × (xs ≡ x ∷ rest))
  Nil-cases [] = inl refl
  Nil-cases (x ∷ xs) = inr (x, xs, refl)

  run_once-IsValid : (h : Hub D F) → IsValid h → IsValid (run_once h)
  unfolding run_once
  run_once-IsValid h v = elim (Bool-cases h.done) [
    | inl e ↦ subst IsValid (ground (arith, e)) v
    | inr e ↦ elim (Nil-cases h.updates) [
      | inl n ↦ subst IsValid (ground (arith, e, n)) v
      | inr (p, ps, n) ↦
          let taken : Hub D F = record h { updates = ps } in
          subst IsValid (ground (arith, e, n)) (
            broadcast-IsValid p taken
              (record { queue = ground (arith, n, v.queue); good = v.good; own = v.own }))
    ]
  ]

  update-IsValid :
      (id : ℕ) (coins : List String) (h : Hub D F)
      → IsValid h
      → IsValid (update_client_subscriptions id coins h)
  unfolding update_client_subscriptions
  update-IsValid id coins h v = record {
    queue = v.queue;
    good = set_coins-IsGood h.next_id id coins h.clients v.good;
    own = set_coins-OwnIds id coins h.clients v.own;
  }

  add_client-IsValid :
      (coins : List String) (h : Hub D F) → IsValid h → IsValid (add_client coins h).0
  unfolding add_client
  add_client-IsValid coins h v = record {
    queue = v.queue;
    good =
        All-append (IsGood (h.next_id + 1)) h.clients _ (raise-IsGood h.next_id h.clients v.good)
          (record { sends = omega arith; given = omega arith }, tt);
    own = new-OwnIds h.next_id coins h.clients v.good v.own;
  }

  handle_message-IsValid :
      (cm : ClientMessage) (client : Option ℕ) (h : Hub D F)
      → IsValid h
      → IsValid (handle_message cm (client, h)).1
  unfolding handle_message
  handle_message-IsValid cm none h v = elim (Bool-cases (str_eq cm.action "subscribe")) [
    | inl e ↦ subst IsValid (ground (arith, e)) (add_client-IsValid cm.coins h v)
    | inr e ↦ subst IsValid (ground (arith, e)) v
  ]
  handle_message-IsValid cm (some id) h v =
      let remaining = keep_if (λ c. not (contains c cm.coins)) (coins_of id h.clients) in
      elim (Bool-cases (str_eq cm.action "subscribe")) [
        | inl e ↦ subst IsValid (ground (arith, e)) (update-IsValid id cm.coins h v)
        | inr e ↦ elim (Bool-cases (str_eq cm.action "unsubscribe")) [
          | inl f ↦ subst IsValid (ground (arith, e, f)) (update-IsValid id remaining h v)
          | inr f ↦ subst IsValid (ground (arith, e, f)) v
        ]
      ]

  close-IsValid : (client : Option ℕ) (h : Hub D F) → IsValid h → IsValid (close (client, h))
  unfolding close
  close-IsValid none h v = v
  close-IsValid (some id) h v = record {
    queue = v.queue;
    good = keep-All (IsGood h.next_id) (λ c. not (c.id == id)) h.clients v.good;
    own = keep-OwnIds (λ c. not (c.id == id)) h.clients v.own;
  }

  Step-IsValid : (h k : Hub D F) → Step h k → IsValid h → IsValid k
  unfolding stop write_next
  Step-IsValid _ _ (updated price h) v = on_price_update-IsValid price h v
  Step-IsValid _ _ (ran h) v = run_once-IsValid h v
  Step-IsValid _ _ (stopped h) v = record { queue = v.queue; good = v.good; own = v.own }
  Step-IsValid _ _ (wrote id h) v = record {
    queue = v.queue;
    good = drain-IsGood h.next_id id h.clients v.good;
    own = drain-OwnIds id h.clients v.own;
  }
  Step-IsValid _ _ (sent cm client h) v = handle_message-IsValid cm client h v
  Step-IsValid _ _ (closed client h) v = close-IsValid client h v

  pub data Reachable : Hub D F → Type 0 where
    start : Reachable new_hub
    step : (h k : Hub D F) → Reachable h → Step h k → Reachable k

  -- In every state that a new hub reaches the channels are within their capacities, and no two clients have
  -- the same id.
  pub Reachable-IsValid : (h : Hub D F) → Reachable h → IsValid h
  unfolding new_hub
  Reachable-IsValid _ start = record { queue = omega arith; good = tt; own = tt }
  Reachable-IsValid _ (step h k r s) = Step-IsValid h k s (Reachable-IsValid h r)
