-- ===== src/Chat/Starting/Handshake.antt =====
-- About apps/chat/services/lifecycle.py and apps/chat/consumers/visitor.py: the token that a visitor
-- is given opens the socket of the conversation that was started for them.
use Prim.Native.String.{String}
use azm_crm.Prelude.{ℕ, ◌+◌, ◌≤◌, some, true, false, [], ◌∷◌, ◌≡◌, refl, ==_refl}
use azm_crm.Core.Text.{is_empty}
use azm_crm.Tickets.Creation.{Draft}
use azm_crm.Chat.Model.{Conversation, is_open, public_group}
use azm_crm.Chat.World.{World, ok}
use azm_crm.Chat.Tokens.{Signer, Claims, issue, named, read, matches, fingerprint}
use azm_crm.Chat.Starting.{create_ticket, create_conversation, new_conversation, with_hash, start}
use azm_crm.Chat.Sockets.Visitor.{Visitor, Query, connect, authorize, value_of}

-- What is relied on of `django.core.signing` and `hmac.compare_digest`: a signed payload is read
-- back until it is too old, a token is no empty text, and a digest is the same as itself.
pub record IsHonest (k : Signer) : Type 0 where
  pub reads_back :
      (now later age n : ℕ)
      → later ≤ now + age
      → k.loads age later (k.dumps now (("conversation", n) ∷ [])) ≡ some (("conversation", n) ∷ [])
  pub not_empty : (now : ℕ) (claims : Claims) → is_empty (k.dumps now claims) ≡ false
  pub same_digest : (s : String) → k.compare_digest s s ≡ true

-- The conversation that a call of `start` makes, and its token.
abbrev pub started : Signer → Draft → World → Conversation
started k d w =
    with_hash (fingerprint k (issue k w.now (w.next_pk + 1)))
      (new_conversation (w.next_pk + 1) d w.next_pk w.now)

start_lem :
    (k : Signer) (d : Draft) (w : World)
    → (start k d w).0 ≡ ok (started k d w, issue k w.now (w.next_pk + 1))
unfolding start create_ticket create_conversation
start_lem k d w = refl

-- A link that names the token.
abbrev pub with_token : String → Query
with_token token = ("token", token ∷ []) ∷ []

abbrev pub at_moment : ℕ → World → World
at_moment now w = record w { now = now }

module _ (k : Signer) (honest : IsHonest k) (d : Draft) (w : World) (later : ℕ)
    (fresh : later ≤ w.now + w.settings.token_max_age) where
  token : String
  token = issue k w.now (w.next_pk + 1)

  reads : read k w.settings.token_max_age later token ≡ some (w.next_pk + 1)
  unfolding token issue read named
  reads = rw (
    honest.not_empty w.now (("conversation", w.next_pk + 1) ∷ []),
    honest.reads_back w.now later w.settings.token_max_age (w.next_pk + 1) fresh,
  )

  matched : matches k token (fingerprint k token) ≡ true
  unfolding token issue matches
  matched = rw (
    honest.not_empty w.now (("conversation", w.next_pk + 1) ∷ []),
    honest.same_digest (k.sha256 (k.dumps w.now (("conversation", w.next_pk + 1) ∷ []))),
  )

  authorized : authorize k token (at_moment later (start k d w).1) ≡ some (started k d w)
  unfolding authorize start create_ticket create_conversation is_open token
  authorized = rw (reads, ==_refl (w.next_pk + 1), ==_refl (w.next_pk + 1), matched)

  admitted :
      (second at : ℕ)
      → (v : Visitor) × ((connect k
            (with_token token)
            second
            at
            (at_moment later (start k d w).1)).0
          ≡ ok (some v))
        × (v.conversation ≡ started k d w)
        × (v.line.groups ≡ public_group (w.next_pk + 1) ∷ [])
  unfolding connect value_of
  admitted second at = rw authorized (_, refl, refl, refl)

-- `start` does not fail. With signing and digests that behave as documented, the token that it
-- returns, presented before it is too old, opens a visitor's socket on the conversation that was
-- started, in that conversation's public group and no other.
pub connect-start :
    (k : Signer) (d : Draft) (w : World) (later second at : ℕ)
    → IsHonest k
    → later ≤ w.now + w.settings.token_max_age
    → (c : Conversation) × (token : String) × ((start k d w).0 ≡ ok (c, token))
      × (v : Visitor) × ((connect k
            (with_token token)
            second
            at
            (at_moment later (start k d w).1)).0
          ≡ ok (some v))
      × (v.conversation ≡ c)
      × (v.line.groups ≡ public_group c.pk ∷ [])
unfolding token
connect-start k d w later second at honest fresh =
    let done = admitted k honest d w later fresh second at in
    (started k d w, issue k w.now (w.next_pk + 1), start_lem k d w, done.0, done.1, done.2, done.3)
