-- ===== src/Chat/Sends.antt =====
-- What the services of apps/chat/services/ publish: a condition on frames, that every frame which
-- an action publishes meets, whether the action returns or raises.
pub mod Messages
pub mod Desk
pub mod Endings
pub mod Sweeping
use mathlib.Core.List.{append_assoc, append-nil}
use azm_crm.Prelude.{
  ℕ, List, [], ◌∷◌, ◌++◌, ◌≡◌, refl, sym, ◌∙◌, ap, update_where, ◌==◌, All, All-append, Bool, true,
  false, if◌then◌else◌,
}
use azm_crm.Chat.Settings.{Settings}
use azm_crm.Chat.Model.{Conversation, Group, Payload}
use azm_crm.Chat.Redis.{Redis}
use azm_crm.Chat.World.{
  World, M, Error, Result, ok, raised, next, ◌>>=◌, ◌>>◌, pure, raise, on_redis, publish,
  save_conversation,
}

abbrev pub Frame : Type 0
Frame = Group × Payload

-- The list has become longer, by frames that meet the condition.
abbrev pub Grows : (Frame → Type 0) → List Frame → List Frame → Type 0
Grows Q before after = (new : List Frame) × (after ≡ before ++ new) × All Q new

pub record Sends (Q : Frame → Type 0) {A : Type 0} (m : M A) : Type 0 where
  pub grows : (w : World) → Grows Q w.sent (m w).1.sent

-- What is returned, if anything is, meets a condition.
abbrev pub Holds : {A : Type 0} → (A → Type 0) → Result A → Type 0
Holds P (ok a) = P a
Holds P (raised e) = Unit

module _ (Q : Frame → Type 0) where
  pub Grows-refl : (before : List Frame) → Grows Q before before
  Grows-refl before = ([], sym (append-nil before), tt)

  pub Grows-trans :
      (before middle after : List Frame)
      → Grows Q before middle
      → Grows Q middle after
      → Grows Q before after
  Grows-trans before middle after (xs, e, h) (ys, d, k) =
      (xs ++ ys, d ∙ ap (λ zs. zs ++ ys) e ∙ append_assoc before xs ys, All-append Q xs ys h k)

  Grows-next :
      {A B : Type 0} (r : Result A) (f : A → M B) (w : World)
      → ((a : A) → Sends Q (f a))
      → Grows Q w.sent (next r f w).1.sent
  Grows-next (ok a) f w h = (h a).grows w
  Grows-next (raised e) f w h = Grows-refl w.sent

  -- A sequence publishes what its parts do.
  pub Sends-bind :
      {A B : Type 0} {m : M A} {f : A → M B}
      → Sends Q m
      → ((a : A) → Sends Q (f a))
      → Sends Q (m >>= f)
  Sends-bind {m = m} {f = f} h k = record {
    grows = λ w. Grows-trans _ _ _ (h.grows w) (Grows-next (m w).0 f (m w).1 k);
  }

  Grows-next_where :
      {A B : Type 0} (P : A → Type 0) (r : Result A) (f : A → M B) (w : World)
      → Holds P r
      → ((a : A) → P a → Sends Q (f a))
      → Grows Q w.sent (next r f w).1.sent
  Grows-next_where P (ok a) f w p h = (h a p).grows w
  Grows-next_where P (raised e) f w p h = Grows-refl w.sent

  -- The same, where the first part's results are known to meet a condition.
  pub Sends-bind_where :
      {A B : Type 0} (P : A → Type 0) (m : M A) (f : A → M B)
      → Sends Q m
      → ((w : World) → Holds P (m w).0)
      → ((a : A) → P a → Sends Q (f a))
      → Sends Q (m >>= f)
  Sends-bind_where P m f h y k = record {
    grows = λ w. Grows-trans _ _ _ (h.grows w) (Grows-next_where P (m w).0 f (m w).1 (y w) k);
  }

  pub Sends-then : {A B : Type 0} {m : M A} {k : M B} → Sends Q m → Sends Q k → Sends Q (m >> k)
  Sends-then h k = Sends-bind h (λ _. k)

  pub Sends-pure : {A : Type 0} (a : A) → Sends Q (pure a)
  Sends-pure a = record { grows = λ w. Grows-refl w.sent }

  pub Sends-raise : {A : Type 0} (e : Error) → Sends Q (raise {A = A} e)
  Sends-raise e = record { grows = λ w. Grows-refl w.sent }

  -- A publication, and then the rest.
  pub Sends-publish :
      {A : Type 0} (g : Group) (p : Payload) (k : M A)
      → Q (g, p)
      → Sends Q k
      → Sends Q (publish g p >> k)
  Sends-publish g p k h r = record {
    grows = λ w.
        Grows-trans w.sent (w.sent ++ (g, p) ∷ []) _ ((g, p) ∷ [], refl, (h, tt))
          (r.grows (record w { sent = w.sent ++ (g, p) ∷ [] }));
  }

  pub Sends-publish_last : (g : Group) (p : Payload) → Q (g, p) → Sends Q (publish g p)
  Sends-publish_last g p h = record { grows = λ w. ((g, p) ∷ [], refl, (h, tt)) }

  pub Sends-if :
      {A : Type 0} (b : Bool) {m k : M A} → Sends Q m → Sends Q k → Sends Q (if b then m else k)
  Sends-if true h k = h
  Sends-if false h k = k

  -- A change to a row, and then the rest.
  pub Sends-save_conversation :
      {A : Type 0} (pk : ℕ) (f : Conversation → Conversation) (k : M A)
      → Sends Q k
      → Sends Q (save_conversation pk f >> k)
  Sends-save_conversation pk f k r = record {
    grows = λ w.
        r.grows (record w { conversations = update_where (λ c. c.pk == pk) f w.conversations });
  }

  -- An action on the store, and then the rest.
  pub Sends-on_redis :
      {A B : Type 0} (f : Settings → ℕ → Redis → A × Redis) (k : A → M B)
      → ((a : A) → Sends Q (k a))
      → Sends Q (on_redis f >>= k)
  Sends-on_redis f k r = record {
    grows = λ w.
        let done = f w.settings w.now w.redis in (r done.0).grows (record w { redis = done.1 });
  }

All-weaken :
    {A : Type 0} (P Q : A → Type 0) (xs : List A) → ((a : A) → P a → Q a) → All P xs → All Q xs
All-weaken P Q [] f h = tt
All-weaken P Q (x ∷ xs) f h = (f x h.0, All-weaken P Q xs f h.1)

pub Sends-weaken :
    (P Q : Frame → Type 0) {A : Type 0} {m : M A}
    → ((f : Frame) → P f → Q f)
    → Sends P m
    → Sends Q m
Sends-weaken P Q f h = record {
  grows = λ w. let g = h.grows w in (g.0, g.1, All-weaken P Q g.0 f g.2);
}
