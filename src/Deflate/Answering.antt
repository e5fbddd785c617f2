-- ===== src/Deflate/Answering.antt =====
-- Answering offers never panics (`accept_offers` of src/protocol/deflate/negotiate.rs): what is answered
-- is a header value.
use tungstenite_rs.Prelude.{ℕ, ◌≡◌, refl, true, Option, none, some, List, [], ◌∷◌, arith}
use tungstenite_rs.Result.{Result, ok, err, panic, or_panic}
use tungstenite_rs.Result.Fallible.{◌>>=◌, is_total, bind_total, Ensures}
use tungstenite_rs.Deflate.{Settings}
use tungstenite_rs.Deflate.Text.{Bytes, split_header}
use tungstenite_rs.Deflate.Negotiate.{
  consider, parts_of, response_text, offered_server_window, agree_offer, accept_offer,
  accept_offers, Search, going, found, search_parts, search_offers,
}
use tungstenite_rs.Deflate.Parameters.{Params, Extension, empty, deflate, other, parse}
use tungstenite_rs.Deflate.Agreement.{IsFit}
use tungstenite_rs.Deflate.Windows.{params_in_bounds}
use tungstenite_rs.Deflate.Table.{all_visible, Window, unnamed, named, Reads-response_text}
use tungstenite_rs.Deflate.Safety.{IsBounded, parse-IsBounded}
use tungstenite_rs.Deflate.Safety.Server.{agree_offer-IsServerSafe}
use tungstenite_rs.Deflate.Totality.{parse_total}

module _ (s : Settings) (fit : IsFit s) (from_str : Bytes → Option Bytes)
    (takes_visible : (text : Bytes) → all_visible text ≡ true → from_str text ≡ some text) where
  offered-Window :
      (p : Params) (window : Option ℕ)
      → params_in_bounds p ≡ true
      → offered_server_window s p.server_max_window_bits ≡ some window
      → Window window
  unfolding offered_server_window params_in_bounds
  offered-Window p none h e = unnamed
  offered-Window p (some n) h e =
      named n (ground (arith, fit.server_low)) (ground (arith, fit.server_high))

  accept_offer_total :
      (p : Params) → params_in_bounds p ≡ true → is_total (accept_offer from_str s p) ≡ true
  unfolding accept_offer
  accept_offer_total p h = by_window (offered_server_window s p.server_max_window_bits) refl
    where
      by_window :
          (o : Option (Option ℕ))
          → offered_server_window s p.server_max_window_bits ≡ o
          → is_total (elim o as (λ _. Result (Option (Settings × Bytes))) [
            | none ↦ ok none
            | some window ↦
                or_panic (from_str (response_text (agree_offer s p window) window)) >>= λ response.
                ok (some (agree_offer s p window, response))
          ])
            ≡ true
      by_window none e = refl
      by_window (some window) e =
          let (a, b, low, high) = agree_offer-IsServerSafe s fit from_str p window h e in
          let r =
            Reads-response_text (agree_offer s p window) window (offered-Window p window h e) low
              high in
          rw (takes_visible _ r.visible) refl

  consider_total :
      (fallback : Option (Settings × Bytes)) (r : Result Extension)
      → is_total r ≡ true
      → Ensures IsBounded r
      → is_total (consider from_str s fallback r) ≡ true
  unfolding consider IsBounded
  consider_total fallback (ok (deflate p)) t k =
      bind_total (accept_offer from_str s p) _ (accept_offer_total p k) (λ accepted. refl)
  consider_total fallback (ok empty) t k = refl
  consider_total fallback (ok other) t k = refl
  consider_total fallback (err e) t k = refl
  consider_total fallback panic t k = absurd (cc)

  go_on_total :
      (rest : Option (Settings × Bytes) → Result (Search from_str)) (r : Search from_str)
      → ((f : Option (Settings × Bytes)) → is_total (rest f) ≡ true)
      → is_total (elim r as (λ _. Result (Search from_str)) [
        | found accepted ↦ ok (found accepted)
        | going f ↦ rest f
      ])
        ≡ true
  go_on_total rest (found a) h = refl
  go_on_total rest (going f) h = h f

  search_parts_total :
      (parts : List Bytes) (fallback : Option (Settings × Bytes))
      → is_total (search_parts from_str s fallback parts) ≡ true
  unfolding search_parts
  search_parts_total [] fallback = refl
  search_parts_total (part ∷ parts) fallback =
      bind_total (consider from_str s fallback (parse part)) _
        (consider_total fallback (parse part) (parse_total part) (parse-IsBounded part))
        (λ r.
          go_on_total (λ f. search_parts from_str s f parts) r (λ f. search_parts_total parts f))

  search_offers_total :
      (values : List Bytes) (fallback : Option (Settings × Bytes))
      → is_total (search_offers from_str s fallback values) ≡ true
  unfolding search_offers
  search_offers_total [] fallback = refl
  search_offers_total (value ∷ values) fallback =
      bind_total (search_parts from_str s fallback (parts_of from_str (split_header value b','))) _
        (search_parts_total (parts_of from_str (split_header value b',')) fallback)
        (λ r.
          go_on_total (λ f. search_offers from_str s f values) r
            (λ f. search_offers_total values f))

  -- A server with windows in range answers any offers without a panic: what it answers is visible,
  -- a client's window of 8 included, and header values take visible ASCII.
  pub accept_offers_total :
      (offers : List Bytes) → is_total (accept_offers from_str s offers) ≡ true
  unfolding accept_offers
  accept_offers_total offers =
      bind_total (search_offers from_str s none offers) _ (search_offers_total offers none)
        (λ r. refl)
