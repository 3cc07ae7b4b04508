-- ===== src/Pool/Operations.antt =====
-- What the operations of the pool leave behind, on every branch.
use blvm_datum.Common.{
  ℕ, ◌≡◌, ◌⊎◌, inl, refl, ap, true, false, Bool, ◌&&◌, Option, none, some, List, [], ◌∷◌,
}
use blvm_datum.Error.{Result, ok, err, panic, DatumError, pool_connection_error, text, Text, ◌>>=◌}
use blvm_datum.Bytes.{Bytes, IsBytes}
use blvm_datum.Crypto.{Crypto}
use blvm_datum.Stream.{Stream}
use blvm_datum.Coinbase.{CoinbasePayout, parse_coinbase_response}
use blvm_datum.Client.{Client, M}
use blvm_datum.Client.Handshake.{Entropy}
use blvm_datum.Client.Logic.{Meets, returns, fails, Meets-map}
use blvm_datum.Client.Connect.{connect-Meets}
use blvm_datum.Client.Transport.{fetch_coinbaser_request}
use blvm_datum.Pool.{
  Pool, BlockParts, is_some, make_client, keep_client, keep_payout, on_client, connect_pool,
  reconnect, reconnect_with, fetch_coinbase_payout, fetch_if_connected, first_element, as_u64,
  Int64, set_template,
}

module _ {Block : Type 0} where
  -- Whether a url, a username and a password are known.
  abbrev pub has_settings : Pool Block → Bool
  has_settings p = is_some p.pool_url && is_some p.pool_username && is_some p.pool_password

  has_settings-eq :
      (p : Pool Block) (url username password : Option Text)
      → p.pool_url ≡ url
      → p.pool_username ≡ username
      → p.pool_password ≡ password
      → has_settings p ≡ (is_some url && is_some username && is_some password)
  has_settings-eq p url username password eu en ew = rw (eu, en, ew) refl

  -- How a reconnect can end, by whether the settings are known.
  pub data Reconnects (p : Pool Block) : Result (Unit {0}) × Pool Block → Type 0 where
    unconfigured :
        {e : DatumError} {out : Result (Unit {0}) × Pool Block}
        → has_settings p ≡ false
        → out ≡ (err e, p)
        → Reconnects p out
    connected :
        {out : Result (Unit {0}) × Pool Block} (c : Client)
        → has_settings p ≡ true
        → c.connected ≡ true
        → out ≡ (ok tt, record p { protocol_client = some c })
        → Reconnects p out
    refused :
        {e : DatumError} {out : Result (Unit {0}) × Pool Block}
        → has_settings p ≡ true
        → out ≡ (err e, record p { protocol_client = none })
        → Reconnects p out

  module _ (crypto : Crypto) (dial : Text → Stream ⊎ Text) (e : Entropy) where
    connected-Reconnects :
        (p : Pool Block) (url username password : Text)
        → ((address : Text) (s : Stream) → dial address ≡ inl s → IsBytes s.incoming)
        → p.pool_url ≡ some url
        → p.pool_username ≡ some username
        → p.pool_password ≡ some password
        → Reconnects p
            (connect_pool crypto dial e url username password (record p { protocol_client = none }))
    unfolding connect_pool
    connected-Reconnects p url username password readable eu en ew = go _ _ (
        Meets-map {P' = λ _ d. d.connected ≡ true} {Q' = λ d. Unit {0}}
          (connect-Meets crypto dial e (make_client p.pool_public_key url) readable)
          (λ _ d (s, h, f, opens, e). ap (λ (c : Client). c.connected) e) (λ d _. tt))
      where
        known : has_settings p ≡ true
        known = has_settings-eq p _ _ _ eu en ew

        same :
            (o : Option Client)
            → record p {
              pool_url = some url;
              pool_username = some username;
              pool_password = some password;
              protocol_client = o;
            }
              ≡ record p { protocol_client = o }
        same o = rw (eu, en, ew) refl

        go :
            (r : Result (Unit {0})) (d : Client)
            → Meets (λ _ d. d.connected ≡ true) (λ d. Unit {0}) r d
            → Reconnects p (
                keep_client r d (record p {
                  pool_url = some url;
                  pool_username = some username;
                  pool_password = some password;
                  protocol_client = none;
                }))
        go _ d (returns on) = connected d known on (ap (λ q. (ok tt, q)) (same (some d)))
        go _ d (fails {e = x} h) = refused known (ap (λ q. (err x, q)) (same none))

    pub reconnect-Reconnects :
        (p : Pool Block)
        → ((address : Text) (s : Stream) → dial address ≡ inl s → IsBytes s.incoming)
        → Reconnects p (reconnect crypto dial e p)
    unfolding reconnect
    reconnect-Reconnects p readable = go p.pool_url p.pool_username p.pool_password refl refl refl
      where
        go :
            (url username password : Option Text)
            → p.pool_url ≡ url
            → p.pool_username ≡ username
            → p.pool_password ≡ password
            → Reconnects p (reconnect_with crypto dial e url username password p)
        go (some u) (some n) (some w) eu en ew = connected-Reconnects p u n w readable eu en ew
        go (some u) (some n) none eu en ew = unconfigured (has_settings-eq p _ _ _ eu en ew) refl
        go (some u) none w eu en ew = unconfigured (has_settings-eq p _ _ _ eu en ew) refl
        go none n w eu en ew = unconfigured (has_settings-eq p _ _ _ eu en ew) refl

  -- The pool but for its client and its payout.
  abbrev pub settings : Pool Block → Pool Block
  settings p = record p { protocol_client = none; current_coinbase = none }

  -- How a fetch can end: with a payout that was parsed from some message and is stored, or with the
  -- old payout.
  abbrev pub Fetched : Pool Block → Result CoinbasePayout → Pool Block → Type 0
  Fetched p (ok payout) q =
      (message : Bytes) × (parse_coinbase_response message ≡ ok payout)
      × (q.current_coinbase ≡ some payout)
      × (settings q ≡ settings p)
  Fetched p _ q = (q.current_coinbase ≡ p.current_coinbase) × (settings q ≡ settings p)

  Fetched-settings :
      (p : Pool Block) (r : Result CoinbasePayout) (q : Pool Block)
      → Fetched p r q
      → settings q ≡ settings p
  Fetched-settings p (ok payout) q h = h.3
  Fetched-settings p (err e) q h = h.1
  Fetched-settings p panic q h = h.1

  -- How setting a template can end.
  abbrev pub TemplateSet :
      Pool Block
      → Block
      → Option Client
      → List (List Int64)
      → Result (Unit {0}) × Pool Block
      → Type 0
  TemplateSet p template none values out =
      out ≡ (ok tt, record p { current_template = some template })
  TemplateSet p template (some c) ((value ∷ _) ∷ _) out =
      settings out.1 ≡ settings (record p { current_template = some template })
  TemplateSet p template (some c) _ out =
      out ≡ (panic, record p { current_template = some template })

  module _ (crypto : Crypto) where
    keep_payout-Fetched :
        (p q : Pool Block) (r : Result Bytes)
        → q.current_coinbase ≡ p.current_coinbase
        → settings q ≡ settings p
        → Fetched p
            (keep_payout (r >>= parse_coinbase_response) q).0
            (keep_payout (r >>= parse_coinbase_response) q).1
    keep_payout-Fetched p q (ok message) same others = go (parse_coinbase_response message) refl
      where
        go :
            (r : Result CoinbasePayout)
            → parse_coinbase_response message ≡ r
            → Fetched p (keep_payout r q).0 (keep_payout r q).1
        go (ok payout) e = (message, e, refl, others)
        go (err x) e = (same, others)
        go panic e = (same, others)
    keep_payout-Fetched p q (err x) same others = (same, others)
    keep_payout-Fetched p q panic same others = (same, others)

    -- A fetch that returns has stored the payout that it returns, which some message parses to; one
    -- that fails keeps the payout that there was. Either changes nothing else but the client.
    pub fetch_coinbase_payout-Fetched :
        (coinbase_value : ℕ) (p : Pool Block)
        → Fetched p
            (fetch_coinbase_payout crypto coinbase_value p).0
            (fetch_coinbase_payout crypto coinbase_value p).1
    unfolding fetch_coinbase_payout
    fetch_coinbase_payout-Fetched coinbase_value p = go p.protocol_client
      where
        call : M Bytes
        call = fetch_coinbaser_request crypto coinbase_value

        go :
            (o : Option Client)
            → Fetched p
                (keep_payout
                  ((on_client o call p).0 >>= parse_coinbase_response)
                  (on_client o call p).1).0
                (keep_payout
                  ((on_client o call p).0 >>= parse_coinbase_response)
                  (on_client o call p).1).1
        go none =
            keep_payout-Fetched p p (err (pool_connection_error (text "Not connected to pool")))
              refl refl
        go (some c) =
            keep_payout-Fetched p (record p { protocol_client = some (call c).1 }) (call c).0 refl
              refl

    -- Setting a template stores it on every branch, also where the fetch of the payout fails, and
    -- changes no other field but the client and the payout; without a client it changes nothing else
    -- and succeeds, and with one it panics on a template without transactions.
    pub set_template-TemplateSet :
        (parts : BlockParts Block) (template : Block) (p : Pool Block)
        → TemplateSet p template p.protocol_client
            (parts.output_values template)
            (set_template crypto parts template p)
    unfolding set_template
    set_template-TemplateSet parts template p = go p.protocol_client (parts.output_values template)
      where
        q : Pool Block
        q = record p { current_template = some template }

        go :
            (o : Option Client) (values : List (List Int64))
            → TemplateSet p template o values
                (fetch_if_connected crypto o (first_element values >>= first_element) q)
        go none values = refl
        go (some c) [] = refl
        go (some c) ([] ∷ later) = refl
        go (some c) ((value ∷ _) ∷ later) =
            Fetched-settings q _ _ (fetch_coinbase_payout-Fetched (as_u64 value) q)
