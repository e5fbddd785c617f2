-- ===== src/Deflate/Safety/Server.antt =====
-- What a server accepts of any offers (`accept_offers` of src/protocol/deflate/negotiate.rs).
use tungstenite_rs.Prelude.{
  ℕ, ◌≤◌, ◌≡◌, refl, Bool, true, false, Option, none, some, List, [], ◌∷◌, arith, subst,
  if◌then◌else◌,
}
use tungstenite_rs.Result.{Result, ok, err, panic, or_panic}
use tungstenite_rs.Result.Fallible.{◌>>=◌, Ensures, bind-Ensures}
use tungstenite_rs.Deflate.{Settings}
use tungstenite_rs.Deflate.Text.{Bytes, split_header}
use tungstenite_rs.Deflate.Negotiate.{
  consider, parts_of, response_text, offered_server_window, offered_client_window, agree_offer,
  accept_offer, accept_offers, Search, going, found, weigh, search_parts, search_offers,
}
use tungstenite_rs.Deflate.Parameters.{Params, Extension, empty, deflate, other, parse}
use tungstenite_rs.Deflate.Agreement.{IsFit}
use tungstenite_rs.Deflate.Windows.{params_in_bounds}
use tungstenite_rs.Deflate.Safety.{IsBounded, parse-IsBounded}

module _ (s : Settings) (fit : IsFit s) where
  -- What a server may agree to: an encoder's window that flate2 takes and that it set itself at
  -- most, and a decoder's window that exists.
  abbrev pub IsServerSafe : Settings → Type 0
  IsServerSafe agreed =
      (9 ≤ agreed.server_max_window_bits)
      × (agreed.server_max_window_bits ≤ s.server_max_window_bits)
      × (8 ≤ agreed.client_max_window_bits)
      × (agreed.client_max_window_bits ≤ 15)

  module _ (from_str : Bytes → Option Bytes) where
    Accepted : Option (Settings × Bytes) → Type 0
    Accepted none = Unit
    Accepted (some (agreed, response)) = IsServerSafe agreed

    Searched : Search from_str → Type 0
    Searched (going fallback) = Accepted fallback
    Searched (found (agreed, response)) = IsServerSafe agreed

    pub agree_offer-IsServerSafe :
        (p : Params) (window : Option ℕ)
        → params_in_bounds p ≡ true
        → offered_server_window s p.server_max_window_bits ≡ some window
        → IsServerSafe (agree_offer s p window)
    unfolding agree_offer offered_server_window offered_client_window params_in_bounds
    agree_offer-IsServerSafe p window h e =
        ground (arith, fit.server_low, fit.server_high, fit.client_low, fit.client_high)

    accept_offer-Accepted :
        (p : Params) → params_in_bounds p ≡ true → Ensures Accepted (accept_offer from_str s p)
    unfolding accept_offer Accepted
    accept_offer-Accepted p h = by_window (offered_server_window s p.server_max_window_bits) refl
      where
        by_header :
            (window : Option ℕ) (r : Result Bytes)
            → IsServerSafe (agree_offer s p window)
            → Ensures Accepted (r >>= λ response. ok (some (agree_offer s p window, response)))
        by_header window (ok response) k = k
        by_header window (err e) k = tt
        by_header window panic k = tt

        by_window :
            (o : Option (Option ℕ))
            → offered_server_window s p.server_max_window_bits ≡ o
            → Ensures Accepted (elim o as (λ _. Result (Option (Settings × Bytes))) [
              | none ↦ ok none
              | some window ↦
                  or_panic (from_str (response_text (agree_offer s p window) window))
                  >>= λ response. ok (some (agree_offer s p window, response))
            ])
        by_window none e = tt
        by_window (some window) e =
            by_header window (or_panic (from_str (response_text (agree_offer s p window) window)))
              (agree_offer-IsServerSafe p window h e)

    weigh-Searched :
        (fallback accepted : Option (Settings × Bytes))
        → Accepted fallback
        → Accepted accepted
        → Searched (weigh from_str s fallback accepted)
    unfolding weigh Accepted Searched
    weigh-Searched fallback none h k = h
    weigh-Searched fallback (some a) h k = by_test _ fallback h
      where
        kept : Option (Settings × Bytes) → Option (Settings × Bytes)
        kept o = elim o [ none ↦ some a | some f ↦ some f ]

        by_test :
            (b : Bool) (o : Option (Settings × Bytes))
            → Accepted o
            → Searched (
                if b
                then found a
                else going (elim o as (λ _. Option (Settings × Bytes)) [
                  | none ↦ some a
                  | some f ↦ some f
                ]))
        by_test true o l = k
        by_test false none l = k
        by_test false (some f) l = l

    consider-Searched :
        (fallback : Option (Settings × Bytes)) (r : Result Extension)
        → Accepted fallback
        → Ensures IsBounded r
        → Ensures Searched (consider from_str s fallback r)
    unfolding consider IsBounded Searched
    consider-Searched fallback (ok (deflate p)) h k =
        bind-Ensures Accepted Searched (accept_offer from_str s p) _ (accept_offer-Accepted p k)
          (λ accepted l. weigh-Searched fallback accepted h l)
    consider-Searched fallback (ok empty) h k = h
    consider-Searched fallback (ok other) h k = h
    consider-Searched fallback (err e) h k = h
    consider-Searched fallback panic h k = tt

    go_on :
        (rest : Option (Settings × Bytes) → Result (Search from_str)) (r : Search from_str)
        → Searched r
        → ((f : Option (Settings × Bytes)) → Accepted f → Ensures Searched (rest f))
        → Ensures Searched (elim r as (λ _. Result (Search from_str)) [
          | found accepted ↦ ok (found accepted)
          | going f ↦ rest f
        ])
    unfolding Searched
    go_on rest (found a) h k = h
    go_on rest (going f) h k = k f h

    search_parts-Searched :
        (parts : List Bytes) (fallback : Option (Settings × Bytes))
        → Accepted fallback
        → Ensures Searched (search_parts from_str s fallback parts)
    unfolding search_parts Searched
    search_parts-Searched [] fallback h = h
    search_parts-Searched (part ∷ parts) fallback h =
        bind-Ensures Searched Searched (consider from_str s fallback (parse part)) _
          (consider-Searched fallback (parse part) h (parse-IsBounded part))
          (λ r k.
            go_on (λ f. search_parts from_str s f parts) r k
              (λ f l. search_parts-Searched parts f l))

    search_offers-Searched :
        (values : List Bytes) (fallback : Option (Settings × Bytes))
        → Accepted fallback
        → Ensures Searched (search_offers from_str s fallback values)
    unfolding search_offers Searched
    search_offers-Searched [] fallback h = h
    search_offers-Searched (value ∷ values) fallback h =
        bind-Ensures Searched Searched
          (search_parts from_str s fallback (parts_of from_str (split_header value b','))) _
          (search_parts-Searched (parts_of from_str (split_header value b',')) fallback h)
          (λ r k.
            go_on (λ f. search_offers from_str s f values) r k
              (λ f l. search_offers-Searched values f l))

    settle-Accepted :
        (r : Search from_str)
        → Searched r
        → Accepted (elim r as (λ _. Option (Settings × Bytes)) [
          | found accepted ↦ some accepted
          | going fallback ↦ fallback
        ])
    unfolding Searched Accepted
    settle-Accepted (found a) h = h
    settle-Accepted (going f) h = h

    -- Whatever a client offers, what a server with settings in range accepts is safe: its own
    -- window is one that flate2 takes, 9 or more, and what it set itself at most; the client's is
    -- from 8 to 15.
    pub accept_offers-IsServerSafe :
        (offers : List Bytes) (agreed : Settings) (response : Bytes)
        → accept_offers from_str s offers ≡ ok (some (agreed, response))
        → IsServerSafe agreed
    unfolding accept_offers Accepted
    accept_offers-IsServerSafe offers agreed response e = subst (Ensures Accepted) e (
        bind-Ensures Searched Accepted (search_offers from_str s none offers) _
          (search_offers-Searched offers none tt) settle-Accepted)
