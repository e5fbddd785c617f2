-- ===== src/Deflate/Agreement.antt =====
-- The two ends of a negotiation agree (src/protocol/deflate/negotiate.rs).
use tungstenite_rs.Prelude.{
  ℕ, ◌≤◌, ◌≡◌, refl, Bool, true, false, Option, none, some, [], ◌∷◌, arith, min, ltb, if◌then◌else◌,
}
use tungstenite_rs.Result.{Result, ok, or_panic}
use tungstenite_rs.Deflate.{Settings}
use tungstenite_rs.Deflate.Text.{Bytes}
use tungstenite_rs.Deflate.Negotiate.{
  offer_text, response_text, offer, accept_offer, accept_offers, accept_response, accept_params,
  select_values, select_all, select, search_offers, search_parts, weigh, offered_server_window,
  offered_client_window, agree_offer, agree_server_window, agree_client_window, Search, found,
  going,
}
use tungstenite_rs.Deflate.Parameters.{Params, no_value}
use tungstenite_rs.Deflate.Table.{
  all_visible, Reads, params_of, below_full, client_of, Window, unnamed, named, Reads-offer_text,
  Reads-response_text,
}

-- Windows that the setters of the settings allow.
pub record IsFit (s : Settings) : Type 0 where
  pub server_low : 9 ≤ s.server_max_window_bits
  pub server_high : s.server_max_window_bits ≤ 15
  pub client_low : 9 ≤ s.client_max_window_bits
  pub client_high : s.client_max_window_bits ≤ 15

-- The settings are in range, if there are any.
abbrev pub AreFit : Option Settings → Type 0
AreFit none = Unit
AreFit (some s) = IsFit s

-- The outcome of a negotiation over one offer.
pub record Negotiated (from_str : Bytes → Option Bytes) (client server : Settings) : Type 0 where
  pub response : Bytes
  pub at_server : Settings
  pub at_client : Settings
  pub offered : offer from_str client ≡ ok (offer_text client)
  pub accepted :
      accept_offers from_str server (offer_text client ∷ []) ≡ ok (some (at_server, response))
  pub confirmed : accept_response client (response ∷ []) ≡ ok (some at_client)
  pub visible : all_visible response ≡ true
  pub same_server_reset :
      at_client.server_no_context_takeover ≡ at_server.server_no_context_takeover
  pub same_client_reset :
      at_client.client_no_context_takeover ≡ at_server.client_no_context_takeover
  pub same_server_window : at_client.server_max_window_bits ≡ at_server.server_max_window_bits
  pub server_window_low : 9 ≤ at_server.server_max_window_bits
  pub server_window_high :
      at_server.server_max_window_bits
      ≤ min client.server_max_window_bits server.server_max_window_bits
  pub client_window_low : 9 ≤ at_client.client_max_window_bits
  pub client_window_high : at_client.client_max_window_bits ≤ at_server.client_max_window_bits

-- A list with one element that selects parameters.
select_values-Reads :
    {text : Bytes} {p : Params} → Reads text p → select_values none (text ∷ []) ≡ ok (some p)
unfolding select_values select_all select
select_values-Reads {text} {p} r = rw (r.alone, select_values) (rw (r.parsed, select_all) refl)

module _ (client server : Settings) (fit_client : IsFit client) (fit_server : IsFit server) where
  -- The server's window that both know of, if the response names it.
  abbrev window : Option ℕ
  window =
      if ltb client.server_max_window_bits 15
      then some (min client.server_max_window_bits server.server_max_window_bits)
      else below_full server.server_max_window_bits

  abbrev offered_params : Params
  offered_params =
      params_of client.server_no_context_takeover client.client_no_context_takeover
        (below_full client.server_max_window_bits) no_value

  abbrev served : Settings
  served = agree_offer server offered_params window

  window_lem : offered_server_window server (below_full client.server_max_window_bits) ≡ some window
  unfolding offered_server_window
  window_lem = ground (arith, fit_client.server_low, fit_server.server_low)

  window-Window : Window window
  window-Window = by_client (ltb client.server_max_window_bits 15)
    where
      by_server :
          (b : Bool)
          → ltb server.server_max_window_bits 15 ≡ b
          → Window (if b then some server.server_max_window_bits else none)
      by_server true e =
          named server.server_max_window_bits fit_server.server_low fit_server.server_high
      by_server false e = unnamed

      by_client :
          (b : Bool)
          → Window (
              if b
              then some (min client.server_max_window_bits server.server_max_window_bits)
              else below_full server.server_max_window_bits)
      by_client true =
          named (min client.server_max_window_bits server.server_max_window_bits)
            (omega (arith, fit_client.server_low, fit_server.server_low))
            (omega (arith, fit_client.server_high))
      by_client false = by_server (ltb server.server_max_window_bits 15) refl

  abbrev answered_params : Params
  answered_params =
      params_of served.server_no_context_takeover served.client_no_context_takeover window
        (client_of (below_full served.client_max_window_bits))

  abbrev confirmed_settings : Settings
  confirmed_settings = record client {
    server_no_context_takeover = served.server_no_context_takeover;
    client_no_context_takeover = served.client_no_context_takeover;
    server_max_window_bits = served.server_max_window_bits;
    client_max_window_bits = min server.client_max_window_bits client.client_max_window_bits;
  }

  accept_params_lem : accept_params client answered_params ≡ ok confirmed_settings
  unfolding accept_params agree_offer agree_server_window agree_client_window offered_client_window
  accept_params_lem = ground (
    arith, fit_client.server_low, fit_client.server_high, fit_client.client_low,
    fit_client.client_high, fit_server.server_low, fit_server.server_high, fit_server.client_low,
    fit_server.client_high,
  )

  served_window :
      (9 ≤ served.server_max_window_bits)
      × (served.server_max_window_bits
          ≤ min client.server_max_window_bits server.server_max_window_bits)
  unfolding agree_offer
  served_window = ground (
    arith, fit_client.server_low, fit_client.server_high, fit_server.server_low,
    fit_server.server_high,
  )

  confirmed_window :
      (9 ≤ confirmed_settings.client_max_window_bits)
      × (confirmed_settings.client_max_window_bits ≤ served.client_max_window_bits)
  unfolding agree_offer offered_client_window
  confirmed_window = omega (arith, fit_client.client_low, fit_server.client_low)

  module _ (from_str : Bytes → Option Bytes)
      (takes_visible : (text : Bytes) → all_visible text ≡ true → from_str text ≡ some text) where
    Reads-offer : Reads (offer_text client) offered_params
    Reads-offer = Reads-offer_text client fit_client.server_low fit_client.server_high

    Reads-response : Reads (response_text served window) answered_params
    unfolding agree_offer offered_client_window
    Reads-response =
        Reads-response_text served window window-Window (omega (arith, fit_server.client_low))
          fit_server.client_high

    abbrev answer : Settings × Bytes
    answer = (served, response_text served window)

    accept_offer_lem : accept_offer from_str server offered_params ≡ ok (some answer)
    unfolding accept_offer
    accept_offer_lem =
        rw (window_lem, accept_offer)
          (rw (takes_visible (response_text served window) Reads-response.visible, or_panic) refl)

    settled :
        (r : Search from_str)
        → (elim r as (λ _. Result (Search from_str)) [
          | found accepted ↦ ok (found accepted)
          | going fallback ↦ ok (going fallback)
        ])
          ≡ ok r
    settled (found accepted) = refl
    settled (going fallback) = refl

    search_parts_lem :
        search_parts from_str server none (offer_text client ∷ [])
        ≡ ok (weigh from_str server none (some answer))
    unfolding search_parts
    search_parts_lem =
        rw (Reads-offer.parsed, search_parts)
          (simp accept_offer_lem (settled (weigh from_str server none (some answer))))

    search_offers_lem :
        search_offers from_str server none (offer_text client ∷ [])
        ≡ ok (weigh from_str server none (some answer))
    unfolding search_offers
    search_offers_lem =
        rw (Reads-offer.alone, search_offers)
          (simp search_parts_lem (settled (weigh from_str server none (some answer))))

    -- The first answer is given, by the early return or as the fallback.
    accept_offers_lem : accept_offers from_str server (offer_text client ∷ []) ≡ ok (some answer)
    unfolding accept_offers weigh
    accept_offers_lem = simp search_offers_lem (ground arith)

    accept_response_lem :
        accept_response client (response_text served window ∷ []) ≡ ok (some confirmed_settings)
    unfolding accept_response
    accept_response_lem = simp (select_values-Reads Reads-response) (simp accept_params_lem refl)

    offer_lem : offer from_str client ≡ ok (offer_text client)
    unfolding offer
    offer_lem = rw (takes_visible (offer_text client) Reads-offer.visible, or_panic) refl

    -- Two endpoints with windows in range negotiate to an end, provided that header values take
    -- visible ASCII: the offer of the one is a header value, the other accepts it and answers, the
    -- first accepts the answer, and neither panics or refuses. Both then know the same rules on
    -- keeping the context and the same window of the server, within what either set; and the client
    -- compresses with a window that the server's decoder covers.
    pub accept_response-accept_offers-offer : Negotiated from_str client server
    accept_response-accept_offers-offer = record {
      response = response_text served window;
      at_server = served;
      at_client = confirmed_settings;
      offered = offer_lem;
      accepted = accept_offers_lem;
      confirmed = accept_response_lem;
      visible = Reads-response.visible;
      same_server_reset = refl;
      same_client_reset = refl;
      same_server_window = refl;
      server_window_low = served_window.0;
      server_window_high = served_window.1;
      client_window_low = confirmed_window.0;
      client_window_high = confirmed_window.1;
    }
