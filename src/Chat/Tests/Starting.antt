-- ===== src/Chat/Tests/Starting.antt =====
-- A chat that is started, and a few references that are allocated.
use Prim.Native.String.{String, count}
use text.Mathlib.Text.{◌==◌ as str_eq}
use text.Mathlib.TextLemmas.{length-cons}
use text.Mathlib.TextEquality.{eq_iff}
use azm_crm.Prelude.{
  ℕ, zero, suc, ◌+◌, ◌-◌, none, some, [], ◌∷◌, ◌≡◌, refl, ap, ◌∙◌, ◌≤◌, arith, or_else,
}
use azm_crm.Core.Decimal.{zeros}
use azm_crm.Core.Sequence.Distinct.{allocate_all, allocate_all-IsDistinct, IsDistinct}
use azm_crm.Tickets.Creation.{Draft}
use azm_crm.Chat.Model.{Conversation, public_group}
use azm_crm.Chat.World.{ok}
use azm_crm.Chat.Tokens.{Signer, named}
use azm_crm.Chat.Starting.{start, draft}
use azm_crm.Chat.Starting.Handshake.{IsHonest, with_token, at_moment, connect-start}
use azm_crm.Chat.Sockets.Visitor.{Visitor, connect}
use azm_crm.Chat.Tests.{world}

-- A token is as long as the number that it names, and one longer.
abbrev signer : Signer
signer = record {
  dumps = λ now claims. zeros (suc (or_else (named claims) 0));
  loads = λ max_age now token. some (("conversation", count token - 1) ∷ []);
  sha256 = λ s. s;
  compare_digest = str_eq;
}

count-zeros : (n : ℕ) → count (zeros n) ≡ n
unfolding zeros
count-zeros zero = refl
count-zeros (suc n) = length-cons _ (zeros n) ∙ ap suc (count-zeros n)

reads_back :
    (now later age n : ℕ)
    → later ≤ now + age
    → signer.loads age later (signer.dumps now (("conversation", n) ∷ []))
      ≡ some (("conversation", n) ∷ [])
unfolding named
reads_back now later age n h =
    rw (count-zeros (suc n)) (ap (λ (m : ℕ). some (("conversation", m) ∷ [])) (omega arith))

signer-IsHonest : IsHonest signer
unfolding zeros
signer-IsHonest = record {
  reads_back = reads_back;
  not_empty = λ now claims. refl;
  same_digest = λ s. (eq_iff s s).1 refl;
}

abbrev asked : Draft
asked = draft "Live chat" 7 none 3 4 2 "Printer"

connect-start_example :
    (c : Conversation) × (token : String) × ((start signer asked world).0 ≡ ok (c, token))
    × (v : Visitor) × ((connect signer
          (with_token token)
          10
          0
          (at_moment 200 (start signer asked world).1)).0
        ≡ ok (some v))
    × (v.conversation ≡ c)
    × (v.line.groups ≡ public_group c.pk ∷ [])
connect-start_example = connect-start signer asked world 200 10 0 signer-IsHonest (omega arith)

allocate_all-IsDistinct_example :
    IsDistinct (allocate_all (("AZM", 2026) ∷ ("ORG", 2026) ∷ ("AZM", 2026) ∷ []) [])
allocate_all-IsDistinct_example =
    allocate_all-IsDistinct (("AZM", 2026) ∷ ("ORG", 2026) ∷ ("AZM", 2026) ∷ []) [] (omega arith)
