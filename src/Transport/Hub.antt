-- ===== src/Transport/Hub.antt =====
-- internal/adapter/transport/ws: the hub of price updates, and the messages that clients send. A channel is its
-- capacity and what it holds, oldest first. A client's channel holds 64 messages and the hub's 256; a
-- message to a client is the price that it tells of, its format as JSON left out. The hub's loop takes
-- one update at a time, as does a client's writer.
pub mod Bounds
use crypto_price_aggregator.Base.{
  ℕ, ◌+◌, ◌≤◌, ◌<◌, ◌≡◌, ◌≢◌, refl, ap, sym, ◌∙◌, subst, ◌⊎◌, inl, inr, Bool, Bool-cases, true,
  false, not, ◌&&◌, ◌||◌, String, List, [], ◌∷◌, ◌++◌, map, Option, none, some, Option-cases,
  if◌then◌else◌, ltb, ◌==◌, ==_iff, arith, length, length-append, str_eq, eq_iff, keep_if,
}
use crypto_price_aggregator.App.Validator.{contains}
use crypto_price_aggregator.Domain.{Price}

pub record Client (D F : Type 0) : Type 0 where
  pub id : ℕ
  -- The channel `Send`.
  pub sent : List (Price D F)
  pub coin_ids : List String

pub record Hub (D F : Type 0) : Type 0 where
  pub clients : List (Client D F)
  pub updates : List (Price D F)
  pub next_id : ℕ
  pub done : Bool

abbrev pub updates_capacity : ℕ
updates_capacity = 256

abbrev pub send_capacity : ℕ
send_capacity = 64

module _ {D F : Type 0} where
  unfoldable pub new_hub : Hub D F
  new_hub = record { clients = []; updates = []; next_id = 0; done = false }

  unfoldable pub stop : Hub D F → Hub D F
  stop h = record h { done = true }

  -- A client's writer takes the oldest message of its channel.
  unfoldable pub drain : ℕ → List (Client D F) → List (Client D F)
  drain id [] = []
  drain id (c ∷ cs) =
      let rest = drain id cs in
      if c.id == id
      then record c { sent = elim c.sent [ [] ↦ [] | message ∷ later ↦ later ] } ∷ rest
      else c ∷ rest

  unfoldable pub write_next : ℕ → Hub D F → Hub D F
  unfolding drain
  write_next id h = record h { clients = drain id h.clients }

  -- An update that finds the channel full is dropped; on a stopped hub, where Go may choose either way
  -- to go on, it is dropped too.
  unfoldable pub on_price_update : Price D F → Hub D F → Hub D F
  on_price_update price h =
      if not h.done && ltb (length h.updates) updates_capacity
      then record h { updates = h.updates ++ price ∷ [] }
      else h

  -- `select` over a client's channel.
  unfoldable pub offer : Price D F → Client D F → Client D F
  offer price client =
      if not (contains price.coin_id client.coin_ids)
      then client
      else if ltb (length client.sent) send_capacity
      then record client { sent = client.sent ++ price ∷ [] }
      else client

  unfoldable pub broadcast : Price D F → Hub D F → Hub D F
  unfolding offer
  broadcast price h = record h { clients = map (offer price) h.clients }

  -- One round of the hub's loop.
  unfoldable pub run_once : Hub D F → Hub D F
  unfolding broadcast
  run_once h =
      if h.done
      then h
      else elim h.updates [ [] ↦ h | price ∷ rest ↦ broadcast price (record h { updates = rest }) ]

  -- The new client, whose id is the counter's next value.
  unfoldable pub add_client : List String → Hub D F → Hub D F × ℕ
  add_client coin_ids h =
      let id = h.next_id + 1 in
      (
        record h {
          clients = h.clients ++ record { id = id; sent = []; coin_ids = coin_ids } ∷ [];
          next_id = id;
        },
        id,
      )

  unfoldable pub remove_client : ℕ → Hub D F → Hub D F
  remove_client id h = record h { clients = keep_if (λ c. not (c.id == id)) h.clients }

  unfoldable pub set_coins : ℕ → List String → List (Client D F) → List (Client D F)
  set_coins id coin_ids [] = []
  set_coins id coin_ids (c ∷ cs) =
      let rest = set_coins id coin_ids cs in
      if c.id == id then record c { coin_ids = coin_ids } ∷ rest else c ∷ rest

  unfoldable pub update_client_subscriptions : ℕ → List String → Hub D F → Hub D F
  unfolding set_coins
  update_client_subscriptions id coin_ids h = record h { clients = set_coins id coin_ids h.clients }

  unfoldable pub coins_of : ℕ → List (Client D F) → List String
  coins_of id [] = []
  coins_of id (c ∷ cs) = if c.id == id then c.coin_ids else coins_of id cs

-- What a client asks for: the message's `action`, `coins` and `currency`.
pub record ClientMessage : Type 0 where
  pub action : String
  pub coins : List String
  pub currency : String

module _ {D F : Type 0} where
  -- One message of a connection, whose client is there from its first subscription on.
  unfoldable pub handle_message : ClientMessage → Option ℕ × Hub D F → Option ℕ × Hub D F
  unfolding add_client update_client_subscriptions coins_of
  handle_message cm (client, h) =
      if str_eq cm.action "subscribe"
      then elim client [
        | none ↦ (some (add_client cm.coins h).1, (add_client cm.coins h).0)
        | some id ↦ (some id, update_client_subscriptions id cm.coins h)
      ]
      else if str_eq cm.action "unsubscribe"
      then elim client [
        | none ↦ (none, h)
        | some id ↦ (
          some id,
          update_client_subscriptions id
              (keep_if (λ c. not (contains c cm.coins)) (coins_of id h.clients)) h,
        )
      ]
      else (client, h)

  -- The end of a connection.
  unfoldable pub close : Option ℕ × Hub D F → Hub D F
  unfolding remove_client
  close (none, h) = h
  close (some id, h) = remove_client id h
