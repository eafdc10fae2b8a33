-- ===== src/App/Registry.antt =====
-- internal/registry/registry.go: coins by the address of their contract, and contracts by coin. Lower case is
-- Unicode's and a parameter, `lower`. A coin's platforms are listed in one of the orders of the map.
use mathlib.Core.List.{append_assoc, append-nil}
use crypto_price_aggregator.Base.{
  ℕ, ◌≡◌, sym, ap, ◌∙◌, Bool-cases, ◌⊎◌, inl, inr, Bool, true, false, ◌||◌, not, String, List, [],
  ◌∷◌, ◌++◌, Option, none, some, Option-cases, if◌then◌else◌, arith, length, str_eq, eq_refl,
}
use crypto_price_aggregator.Base.Dict.{
  lookup, insert, append_to, entries_at, lookup-insert, entries_at-append_to,
}
use crypto_price_aggregator.Storage.Key.{pair_key}

pub record ContractInfo : Type 0 where
  pub chain : String
  pub address : String

pub record CoinEntry : Type 0 where
  pub id : String
  pub symbol : String
  pub platforms : List (String × String)

pub record TokenRegistry : Type 0 where
  pub by_addr : List (String × String)
  pub by_coin_id : List (String × List ContractInfo)

unfoldable pub new_registry : TokenRegistry
new_registry = record { by_addr = []; by_coin_id = [] }

module _ (lower : String → String) where
  unfoldable pub addr_key : String → String → String
  addr_key chain address = pair_key (lower chain) (lower address)

  unfoldable pub resolve : String → String → TokenRegistry → Option String
  resolve chain address r = lookup (addr_key chain address) r.by_addr

  abbrev pub contract_info : String → String → ContractInfo
  contract_info chain address = record { chain = lower chain; address = lower address }

  unfoldable pub add : String → String → String → TokenRegistry → TokenRegistry
  unfolding addr_key
  add chain address coin_id r = elim (lookup (addr_key chain address) r.by_addr) [
    | some exists ↦ r
    | none ↦ record {
      by_addr = insert (addr_key chain address) coin_id r.by_addr;
      by_coin_id = append_to coin_id (contract_info chain address) r.by_coin_id;
    }
  ]

abbrev is_allowed : String → List (String × Bool) → Bool
is_allowed chain allowed = elim (lookup chain allowed) [ none ↦ false | some b ↦ b ]

module _ (lower : String → String) where
  -- One platform of a coin in the loop of `LoadCatalog`.
  unfoldable pub load_platform :
      List (String × Bool) → String → String → String → TokenRegistry → TokenRegistry
  load_platform allowed id chain addr r =
      if str_eq addr "" || not (is_allowed chain allowed) then r else record {
        by_addr = insert (addr_key lower chain addr) id r.by_addr;
        by_coin_id = append_to id (contract_info lower chain addr) r.by_coin_id;
      }

  unfoldable pub load_entry :
      List (String × Bool) → String → List (String × String) → TokenRegistry → TokenRegistry
  unfolding load_platform
  load_entry allowed id [] r = r
  load_entry allowed id ((chain, addr) ∷ platforms) r =
      load_entry allowed id platforms (load_platform allowed id chain addr r)

  unfoldable pub load_catalog :
      List CoinEntry → List (String × Bool) → TokenRegistry → TokenRegistry
  unfolding load_entry
  load_catalog [] allowed r = r
  load_catalog (e ∷ es) allowed r = load_catalog es allowed (load_entry allowed e.id e.platforms r)

unfoldable pub contracts : String → TokenRegistry → List ContractInfo
contracts coin_id r = entries_at coin_id r.by_coin_id

unfoldable pub count : TokenRegistry → ℕ
count r = length r.by_addr

module _ (lower : String → String) where
  -- After `Add` the address resolves: to the coin that was there, or else to the new one, which then has
  -- one more contract.
  pub resolve-add :
      (chain address coin_id : String) (r : TokenRegistry)
      → ((old : String) × (resolve lower chain address r ≡ some old)
          × (add lower chain address coin_id r ≡ r))
        ⊎ ((resolve lower chain address r ≡ none)
            × (resolve lower chain address (add lower chain address coin_id r) ≡ some coin_id)
            × (contracts coin_id (add lower chain address coin_id r)
                ≡ contracts coin_id r ++ contract_info lower chain address ∷ []))
  unfolding resolve add contracts
  resolve-add chain address coin_id r =
      let key = addr_key lower chain address in
      elim (Option-cases (lookup key r.by_addr)) [
        | inl n ↦ inr (
          n,
          ground (arith, n, lookup-insert key key coin_id r.by_addr, eq_refl key),
          ground (
            arith,
            n,
            entries_at-append_to coin_id coin_id (contract_info lower chain address) r.by_coin_id,
            eq_refl coin_id,
          ),
        )
        | inr (old, e) ↦ inl (old, e, ground (arith, e))
      ]

  -- The contracts that a coin's platforms name on allowed chains, in their order.
  abbrev pub allowed_contracts : List (String × Bool) → List (String × String) → List ContractInfo
  allowed_contracts allowed [] = []
  allowed_contracts allowed ((chain, addr) ∷ platforms) =
      let rest = allowed_contracts allowed platforms in
      if str_eq addr "" then rest else elim (lookup chain allowed) [
        | some true ↦ contract_info lower chain addr ∷ rest
        | _ ↦ rest
      ]

  -- The contracts that a catalog has for a coin.
  abbrev pub listed : String → List (String × Bool) → List CoinEntry → List ContractInfo
  listed id allowed [] = []
  listed id allowed (e ∷ es) =
      let rest = listed id allowed es in
      if str_eq e.id id then allowed_contracts allowed e.platforms ++ rest else rest

  contracts-load_platform :
      (allowed : List (String × Bool)) (id own chain addr : String) (r : TokenRegistry)
      → contracts id (load_platform lower allowed own chain addr r) ≡ (
          if str_eq own id
          then contracts id r ++ allowed_contracts allowed ((chain, addr) ∷ [])
          else contracts id r)
  unfolding load_platform contracts
  contracts-load_platform allowed id own chain addr r =
      let appended = entries_at-append_to own id (contract_info lower chain addr) r.by_coin_id in
      elim (Option-cases (lookup chain allowed)) [
        | inl n ↦ ground (arith, n, append-nil (entries_at id r.by_coin_id))
        | inr (true, n) ↦ ground (arith, n, appended, append-nil (entries_at id r.by_coin_id))
        | inr (false, n) ↦ ground (arith, n, append-nil (entries_at id r.by_coin_id))
      ]

  contracts-load_entry :
      (allowed : List (String × Bool)) (id own : String) (platforms : List (String × String))
      (r : TokenRegistry)
      → contracts id (load_entry lower allowed own platforms r) ≡ (
          if str_eq own id
          then contracts id r ++ allowed_contracts allowed platforms
          else contracts id r)
  unfolding load_entry
  contracts-load_entry allowed id own [] r = ground (arith, append-nil (contracts id r))
  contracts-load_entry allowed id own ((chain, addr) ∷ platforms) r =
      let first = contracts-load_platform allowed id own chain addr r in
      let rest =
        contracts-load_entry allowed id own platforms
          (load_platform lower allowed own chain addr r) in
      let assoc =
        append_assoc (contracts id r) (allowed_contracts allowed ((chain, addr) ∷ []))
          (allowed_contracts allowed platforms) in
      elim (Option-cases (lookup chain allowed)) [
        | inl n ↦ ground (arith, n, first, rest, assoc, append-nil (contracts id r))
        | inr (true, n) ↦ ground (arith, n, first, rest, assoc, append-nil (contracts id r))
        | inr (false, n) ↦ ground (arith, n, first, rest, assoc, append-nil (contracts id r))
      ]

  load_catalog-listed :
      (allowed : List (String × Bool)) (id : String) (catalog : List CoinEntry) (r : TokenRegistry)
      → contracts id (load_catalog lower catalog allowed r)
        ≡ contracts id r ++ listed id allowed catalog
  unfolding load_catalog
  load_catalog-listed allowed id [] r = sym (append-nil (contracts id r))
  load_catalog-listed allowed id (e ∷ es) r =
      let first = contracts-load_entry allowed id e.id e.platforms r in
      let rest = load_catalog-listed allowed id es (load_entry lower allowed e.id e.platforms r) in
      let assoc =
        append_assoc (contracts id r) (allowed_contracts allowed e.platforms)
          (listed id allowed es) in
      elim (Bool-cases (str_eq e.id id)) [
        | inl same ↦ ground (arith, same, first, rest, assoc)
        | inr differ ↦ ground (arith, differ, first, rest)
      ]

  -- Loading a catalog appends, to each coin's contracts, all that the catalog has for the coin on allowed
  -- chains, in the catalog's order; and loading it again appends them all again.
  pub contracts-load_catalog :
      (allowed : List (String × Bool)) (id : String) (catalog : List CoinEntry) (r : TokenRegistry)
      → let once = load_catalog lower catalog allowed r in
        (contracts id once ≡ contracts id r ++ listed id allowed catalog)
        × (contracts id (load_catalog lower catalog allowed once)
            ≡ (contracts id r ++ listed id allowed catalog) ++ listed id allowed catalog)
  contracts-load_catalog allowed id catalog r =
      let once = load_catalog lower catalog allowed r in
      let first = load_catalog-listed allowed id catalog r in
      (
        first,
        load_catalog-listed allowed id catalog once
            ∙ ap (λ own. own ++ listed id allowed catalog) first,
      )
