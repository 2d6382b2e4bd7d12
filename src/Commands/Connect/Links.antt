-- ===== src/Commands/Connect/Links.antt =====
-- The ways to sign in by a link.
use Prim.Native.String.{◌++◌ as append}
use Prim.Native.Char.{Char}
use text.Mathlib.Text.{◌==◌ as str_eq}
use text.Mathlib.TextLemmas.{append_assoc, append-nil, nil-append, cons-append}
use drop_app.Prelude.{
  String, ◌≡◌, refl, sym, ap, ◌∙◌, true, ℕ, suc, ◌++◌, Option, some, zero, List, [], ◌∷◌,
  if◌then◌else◌, arith, Bool-cases, inl, inr,
}
use drop_app.Prelude.Outcomes.{Outcome, ok}
use drop_app.Remote.Cache.{Codec, Writing}
use drop_app.Remote.Auth.{User, HandshakeResponse, Reply}
use drop_app.Prelude.Panics.{◌>>=◌}
use drop_app.Commands.Session.{
  handshake_with, finish_handshake, emit_session, auth_processing, Session, request_body,
  recieve_handshake, recieve_handshake_logic,
}
use drop_app.Commands.Connect.{
  Message, text_message, other_message, CodeWebsocketResponse, DeepLink, Receive, load, on_open_url,
  manual_recieve_handshake, finish_code,
}
use drop_app.Prelude.Paths.{no_slash, cons_lem, starts_slash}
use drop_app.Prelude.Texts.{split, split_from, concat}

split_step :
    (before : String) (c : Char) (s : String)
    → split_from before zero "/" (String.◌∷◌ c s) ≡ (
        if str_eq (String.◌∷◌ c "") "/"
        then before ∷ split "/" s
        else split_from (append before (String.◌∷◌ c "")) zero "/" s)
unfolding split split_from
split_step before c s = rw (starts_slash c s) refl

-- The first piece, up to a slash.
split_from-slash :
    (before p s : String)
    → no_slash p ≡ true
    → split_from before zero "/" (append p (append "/" s)) ≡ append before p ∷ split "/" s
split_from-slash before String.[] s h =
    ap (split_from before zero "/") (nil-append (append "/" s) ∙ cons_lem "/" s)
    ∙ split_step before "/" s
    ∙ ap (λ b. b ∷ split "/" s) (sym (append-nil before))
split_from-slash before (String.◌∷◌ c p) s h =
    ap (split_from before zero "/") (cons-append c p (append "/" s))
    ∙ split_step before c (append p (append "/" s))
    ∙ elim (Bool-cases (str_eq (String.◌∷◌ c "") "/")) [
      | inl slash ↦ ground arith
      | inr other ↦ rw other (
          split_from-slash (append before (String.◌∷◌ c "")) p s (rw other at h)
          ∙ ap (λ b. b ∷ split "/" s)
              (append_assoc before (String.◌∷◌ c "") p ∙ ap (append before) (cons_lem c p)))
    ]

split_link : (t : String) → split "/" (append "/" t) ≡ "" ∷ split "/" t
unfolding split
split_link t =
    ap (split_from "" zero "/") (sym (nil-append (append "/" t))) ∙ split_from-slash "" "" t refl

split_manual : (t : String) → split "/" (concat ("handshake/" ∷ t ∷ [])) ≡ "handshake" ∷ split "/" t
unfolding split concat
split_manual t =
    ap (split_from "" zero "/")
      (ap (append "handshake/") (append-nil t) ∙ append_assoc "handshake" "/" t)
    ∙ split_from-slash "" "handshake" t refl

-- The first piece of a link does not matter.
request_body_lem : (a b : String) (l : List String) → request_body (a ∷ l) ≡ request_body (b ∷ l)
request_body_lem a b [] = refl
request_body_lem a b (x ∷ []) = refl
request_body_lem a b (x ∷ y ∷ []) = refl
request_body_lem a b (x ∷ y ∷ z ∷ l) = refl

abbrev pub others : ℕ → List (Outcome String Message)
others zero = []
others (suc n) = ok other_message ∷ others n

load-others :
    (parse : String → Outcome String CodeWebsocketResponse) (n : ℕ)
    (messages : List (Outcome String Message))
    → load parse (others n ++ messages) ≡ load parse messages
unfolding load
load-others parse zero messages = refl
load-others parse (suc n) messages = load-others parse n messages

module _ {Bytes : Type 0} (sign_nonce : String → String → Option String)
    (key_hash : String → String) (codec : Codec Bytes User) (cache_dir : String)
    (parse : String → Option String) (answer : Reply HandshakeResponse) (nonce : String)
    (token : Outcome String String) (later : String) (user : Reply User)
    (writing : Writing Bytes) where
  abbrev pub recieve : Receive Bytes
  recieve path s =
      recieve_handshake sign_nonce key_hash codec cache_dir parse path answer nonce token later user
        writing s

  recieve-congr :
      (path path' : String) (s : Session Bytes)
      → request_body (split "/" path) ≡ request_body (split "/" path')
      → recieve path s ≡ recieve path' s
  unfolding recieve_handshake recieve_handshake_logic
  recieve-congr path path' s h =
      ap
        (λ body.
          handshake_with sign_nonce body parse answer nonce token (emit_session auth_processing s)
          >>= λ r. finish_handshake sign_nonce key_hash codec cache_dir r.0 later user writing r.1)
        h

  -- The three ways to sign in do the same to the session. A link `drop://handshake/…` that the system
  -- opens, the text after its first slash that is put in by hand, and that text as the token of a
  -- code, which comes after any number of messages of the websocket that are no text.
  pub same_handshake :
      (read : String → Outcome String CodeWebsocketResponse) (t m : String) (n : ℕ)
      (urls : List DeepLink) (messages : List (Outcome String Message)) (s : Session Bytes)
      → read m ≡ ok (record { response_type = "token"; value = t })
      → (on_open_url recieve (record { host = some "handshake"; path = append "/" t } ∷ urls) s
          ≡ manual_recieve_handshake recieve t s)
        × (finish_code recieve (load read (others n ++ ok (text_message m) ∷ messages)) s
            ≡ manual_recieve_handshake recieve t s)
  unfolding on_open_url manual_recieve_handshake finish_code load
  same_handshake read t m n urls messages s h =
      let link = recieve-congr (append "/" t) (concat ("handshake/" ∷ t ∷ [])) s (
        ap request_body (split_link t)
        ∙ request_body_lem "" "handshake" (split "/" t)
        ∙ ap request_body (sym (split_manual t))) in
      (link, ap (λ e. finish_code recieve e s) (load-others read n _) ∙ rw h refl)
