-- ===== src/Conn/Startup.antt =====
-- A SCRAM login through `startup` and `handleAuth` of pg2json/conn.go.
use pg2json.Common.{ℕ, Bool, Option, none, some, List, [], ◌∷◌, ◌++◌, Bytes, codes}
use pg2json.GoStd.{put32}
use pg2json.Auth.{Crypto, Scram, mechanism, new_scram, client_first}
use pg2json.Auth.Exchange.{server_first_message, auth_message}
use pg2json.Conn.{
  Login, StartMessage, start_auth, start_ready, Starting, ConnError, unstarted, startup_loop,
}

-- The messages by which the server drives the exchange.
abbrev pub sasl : Bytes
sasl = put32 10 ++ (mechanism ++ 0 ∷ 0 ∷ [])

abbrev pub sasl_continue : Bytes → Bytes
sasl_continue first = put32 11 ++ first

abbrev pub sasl_done : Bytes → Bytes
sasl_done final = put32 12 ++ final

-- The client behind its first message.
abbrev pub begun : Crypto → Login → Bytes → Scram
begun h l nonce = (client_first (new_scram h l.password nonce)).1

-- A message that is handled without an answer, and one with an answer that is sent.
module _ (h : Crypto) (l : Login) (nonce : Bytes) (link : ℕ → Bool) where
  abbrev go_on : List StartMessage → Option ConnError × Starting → Option ConnError × Starting
  go_on ms r = elim (r.0) [ some x ↦ (some x, r.1) | none ↦ startup_loop h l nonce link ms r.1 ]

-- The server's side of a login: its first message, the salted password, and what both sides sign.
abbrev pub whole_nonce : Crypto → (nonce extra : Bytes) → Bytes
whole_nonce h nonce extra = h.encode64 nonce ++ extra

abbrev pub signed_text : Crypto → (nonce extra salt iter : Bytes) → Bytes
signed_text h nonce extra salt iter =
    let theirs = whole_nonce h nonce extra in
    auth_message (codes "n=,r=" ++ h.encode64 nonce) (server_first_message h theirs salt iter)
      theirs

-- The messages of a login in which the server signs with `signature`.
abbrev pub login_messages : Crypto → (nonce extra salt iter signature : Bytes) → List StartMessage
login_messages h nonce extra salt iter signature =
    start_auth sasl
    ∷ start_auth (sasl_continue (server_first_message h (whole_nonce h nonce extra) salt iter))
    ∷ start_auth (sasl_done (codes "v=" ++ h.encode64 signature))
    ∷ start_auth (put32 0)
    ∷ start_ready
    ∷ []

abbrev pub logged_in :
    Crypto
    → Login
    → (ℕ → Bool)
    → (nonce extra salt iter signature : Bytes) → Option ConnError × Starting
logged_in h l link nonce extra salt iter signature =
    startup_loop h l nonce link (login_messages h nonce extra salt iter signature) unstarted
