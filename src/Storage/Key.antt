-- ===== src/Storage/Key.antt =====
-- The keys `coinID:currency` of the memory cache, the memory store and the poller.
use Prim.Native.String.{◌++◌}
use text.Mathlib.TextLemmas.{cons-append, nil-append, cons-eq-cons}
use crypto_price_aggregator.Base.{◌≡◌, ◌≢◌, String, refl, ap, sym, ◌∙◌}

-- `fmt.Sprintf("%s:%s", coinID, currency)`
unfoldable pub pair_key : String → String → String
pair_key coin currency = coin ++ (":" ++ currency)

-- The text has no colon.
abbrev pub HasNoColon : String → Type 0
HasNoColon String.[] = Unit {0}
HasNoColon (String.◌∷◌ c s) = (c ≢ ":") × HasNoColon s

colon-append : (s : String) → ":" ++ s ≡ String.◌∷◌ ":" s
colon-append s = cons-append ":" String.[] s ∙ ap (String.◌∷◌ ":") (nil-append s)

-- Two pairs with the same key are the same, if neither coin's name has a colon.
pub pair_key_inj :
    (a b c d : String)
    → HasNoColon a
    → HasNoColon b
    → pair_key a c ≡ pair_key b d
    → (a ≡ b) × (c ≡ d)
unfolding pair_key
pair_key_inj String.[] String.[] c d h k e =
    let e' : String.◌∷◌ ":" c ≡ String.◌∷◌ ":" d =
      sym (nil-append (":" ++ c) ∙ colon-append c) ∙ e ∙ nil-append (":" ++ d) ∙ colon-append d in
    (refl, (cons-eq-cons.0 e').1)
pair_key_inj String.[] (String.◌∷◌ y b) c d h k e =
    let e' : String.◌∷◌ ":" c ≡ String.◌∷◌ y (b ++ (":" ++ d)) =
      sym (nil-append (":" ++ c) ∙ colon-append c) ∙ e ∙ cons-append y b (":" ++ d) in
    absurd (k.0 (sym (cons-eq-cons.0 e').0))
pair_key_inj (String.◌∷◌ x a) String.[] c d h k e =
    let e' : String.◌∷◌ x (a ++ (":" ++ c)) ≡ String.◌∷◌ ":" d =
      sym (cons-append x a (":" ++ c)) ∙ e ∙ nil-append (":" ++ d) ∙ colon-append d in
    absurd (h.0 (cons-eq-cons.0 e').0)
pair_key_inj (String.◌∷◌ x a) (String.◌∷◌ y b) c d h k e =
    let e' : String.◌∷◌ x (a ++ (":" ++ c)) ≡ String.◌∷◌ y (b ++ (":" ++ d)) =
      sym (cons-append x a (":" ++ c)) ∙ e ∙ cons-append y b (":" ++ d) in
    let both = cons-eq-cons.0 e' in
    let rest = pair_key_inj a b c d h.1 k.1 both.1 in (cc (both.0, rest.0), rest.1)
