-- ===== src/Providers/Interface.antt =====
-- internal/domain/port/ports.go: the interface of price providers, which every adapter implements, and
-- what an implementation promises to the services.
use crypto_price_aggregator.Base.{ℕ, ◌≡◌, String, List, Option}
use crypto_price_aggregator.Domain.{Price, ProviderStatus, Error}
use crypto_price_aggregator.Providers.Adapter.{Provider, Runtime, Conn, Call}
use crypto_price_aggregator.Providers.Adapter.Contract.{Outcome, IsSuccess}
use crypto_price_aggregator.Providers.Quotes.{Exchange, quote_each, quote_first, ask, one_by_one}
use crypto_price_aggregator.Providers.Quotes.Served.{
  IsQuote, AreServed, IsSound, quote_each-Outcome, quote_first-Outcome,
}
use crypto_price_aggregator.Providers.Quotes.Asked.{
  IsResult, Outcome-IsResult, ask-Outcome, one_by_one-AreServed,
}

pub record PriceProvider (W D F : Type 0) : Type 0 where
  pub name : String
  pub status : Provider → ProviderStatus
  pub get_price : String → String → Call W (Price D F)
  pub get_prices : List String → String → Call W (List (Price D F))

-- The provider reports its own name and its last error. A price of GetPrice bears the coin and currency that
-- were asked for and that name, and comes with a success in the status; an error of GetPrice is in the
-- status, unless the request was not made. The prices of GetPrices bear some of the coins in their order.
pub record IsPriceProvider {W D F : Type 0} (p : PriceProvider W D F) : Type 0 where
  pub reports_name : (q : Provider) → (p.status q).name ≡ p.name
  pub reports_error : (q : Provider) → (p.status q).last_error ≡ q.last_error
  pub serves :
      (coin currency : String) (s : Conn W)
      → Outcome
          (IsQuote p.name coin currency)
          (IsSuccess s.provider)
          s.provider
          (p.get_price coin currency s)
  pub serves_all :
      (coins : List String) (currency : String) (s : Conn W)
      → IsResult (AreServed p.name currency coins) (p.get_prices coins currency s)

module _ {W D F R : Type 0} (go : Runtime W D F) (x : Exchange D F R) (sound : IsSound x)
    (status : Provider → ProviderStatus)
    (reports_name : (q : Provider) → (status q).name ≡ x.provider_name)
    (reports_error : (q : Provider) → (status q).last_error ≡ q.last_error) where
  -- A package that asks for one coin after another is a provider.
  pub quote_each-IsPriceProvider : IsPriceProvider record {
    name = x.provider_name;
    status = status;
    get_price = quote_first go x;
    get_prices = quote_each go x;
  }
  quote_each-IsPriceProvider = record {
    reports_name = reports_name;
    reports_error = reports_error;
    serves = quote_first-Outcome go x sound;
    serves_all = λ coins currency s.
        Outcome-IsResult (AreServed x.provider_name currency coins) (IsSuccess s.provider)
          s.provider (quote_each go x coins currency s)
          (quote_each-Outcome go x sound coins currency s);
  }

  -- A package that takes one coin is a provider.
  pub ask-IsPriceProvider :
      (check : ℕ → Option Error)
      → IsPriceProvider record {
        name = x.provider_name;
        status = status;
        get_price = ask go check x;
        get_prices = λ coins currency. one_by_one (λ c. ask go check x c currency) coins;
      }
  ask-IsPriceProvider check = record {
    reports_name = reports_name;
    reports_error = reports_error;
    serves = ask-Outcome go check x sound;
    serves_all = λ coins currency s.
        one_by_one-AreServed x.provider_name currency (λ c. ask go check x c currency)
          (λ c t.
            Outcome-IsResult (IsQuote x.provider_name c currency) (IsSuccess t.provider) t.provider
              (ask go check x c currency t) (ask-Outcome go check x sound c currency t))
          coins s;
  }
