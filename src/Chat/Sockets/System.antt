-- ===== src/Chat/Sockets/System.antt =====
-- The chat as a whole (apps/chat/consumers/, apps/chat/tasks.py and what the views call of
-- apps/chat/services/): every call that anybody can make is a step on the shared state.
pub mod Hearing
pub mod Customer
use azm_crm.Prelude.{
  ℕ, String, Option, none, some, Bool, true, false, List, [], ◌∷◌, ◌++◌, ◌≡◌, refl, ◌≤◌, All,
  All-append, subst, sym,
}
use azm_crm.Chat.Model.{Conversation, User}
use azm_crm.Chat.World.{World, M}
use azm_crm.Chat.Tokens.{Signer}
use azm_crm.Chat.Lifecycle.{try_assign, agent_deactivated}
use azm_crm.Chat.Sweeps.{
  close_deserted_desks, sweep_interrupted_conversations, sweep_idle_conversations,
}
use azm_crm.Chat.Messaging.Boundary.{IsClean}
use azm_crm.Chat.Sockets.Wire.{Wire}
use azm_crm.Chat.Sockets.Visitor
use azm_crm.Chat.Sockets.Visitor.{Visitor, Query}
use azm_crm.Chat.Sockets.Agent
use azm_crm.Chat.Sockets.Agent.{Agent}
use azm_crm.Chat.Sockets.Agent.Frames
use azm_crm.Chat.Sockets.Supervisor
use azm_crm.Chat.Sockets.Supervisor.{Supervisor}
use azm_crm.Chat.Sockets.Supervisor.Silence.{ToStaff, Sends-receive, Sends-disconnect}
use azm_crm.Chat.Sends.{Frame, Grows, Sends-weaken}
use azm_crm.Chat.Sends.Desk.{Clean}
use azm_crm.Chat.Sends.Endings.{Clean-agent_deactivated, Clean-try_assign}
use azm_crm.Chat.Sends.Sweeping.{
  Clean-close_deserted_desks, Clean-sweep_interrupted, Clean-sweep_idle_conversations,
}
use azm_crm.Chat.Sockets.Clean.{
  Clean-visitor_connect, Clean-visitor_receive, Clean-agent_connect, Clean-agent_disconnect,
  Clean-observer_connect,
}
use azm_crm.Chat.Sockets.Clean.Frames.{Clean-agent_receive}

abbrev after : {A : Type 0} → M A → World → World
after m w = (m w).1

-- A call of the chat. The sockets stand for any, in any state that they may be in. What else the
-- application does, to rows or by waiting, publishes nothing.
pub data Step (w : World) : World → Type 0 where
  visitor_opens :
      (k : Signer) (query : Query) (second at : ℕ) {u : World}
      → after (Visitor.connect k query second at) w ≡ u
      → Step w u
  visitor_frame :
      (wire : Wire) (at : ℕ) (frame : Option String) (v : Visitor) {u : World}
      → after (Visitor.receive wire at frame v) w ≡ u
      → Step w u
  agent_opens :
      (user : Option User) (second at : ℕ) {u : World}
      → after (Agent.connect user second at) w ≡ u
      → Step w u
  agent_frame :
      (wire : Wire) (at : ℕ) (frame : Option String) (a : Agent) {u : World}
      → after (Frames.receive wire at frame a) w ≡ u
      → Step w u
  agent_leaves : (a : Agent) {u : World} → after (Agent.disconnect a) w ≡ u → Step w u
  observer_opens :
      (user : Option User) (wanted : Option ℕ) (second at : ℕ) {u : World}
      → after (Supervisor.connect user wanted second at) w ≡ u
      → Step w u
  observer_frame :
      (wire : Wire) (at : ℕ) (frame : Option String) (v : Supervisor) {u : World}
      → after (Supervisor.receive wire at frame v) w ≡ u
      → Step w u
  observer_leaves : (v : Supervisor) {u : World} → after (Supervisor.disconnect v) w ≡ u → Step w u
  assigning :
      (c : Conversation) (candidates : List ℕ) {u : World}
      → after (try_assign c candidates) w ≡ u
      → Step w u
  deactivating : (user : ℕ) {u : World} → after (agent_deactivated user) w ≡ u → Step w u
  closing_desks :
      (departments branches : List ℕ) {u : World}
      → after (close_deserted_desks departments branches) w ≡ u
      → Step w u
  sweeping_interrupted : {u : World} → after sweep_interrupted_conversations w ≡ u → Step w u
  sweeping_idle : {u : World} → after sweep_idle_conversations w ≡ u → Step w u
  elsewhere : {u : World} → u.sent ≡ w.sent → Step w u

-- The states that the chat may come to, from one where nothing was published.
pub data Reach : World → Type 0 where
  start : {w : World} → w.sent ≡ [] → Reach w
  next : {w u : World} → Reach w → Step w u → Reach u

Grows-IsClean :
    (before after : List Frame)
    → Grows IsClean before after
    → All IsClean before
    → All IsClean after
Grows-IsClean before after (new, e, h) k = rw e (All-append IsClean before new k h)

Clean-IsClean :
    {A : Type 0} (m : M A) (w u : World)
    → Clean m
    → after m w ≡ u
    → All IsClean w.sent
    → All IsClean u.sent
Clean-IsClean m w u clean e k =
    subst (λ (v : World). All IsClean v.sent) e
      (Grows-IsClean w.sent (m w).1.sent (clean.grows w) k)

ToStaff-IsClean : (c : ℕ) (f : Frame) → ToStaff c f → IsClean f
ToStaff-IsClean c (g, p) e = subst (λ h. IsClean (h, p)) (sym e) tt

Step-IsClean : {w u : World} → Step w u → All IsClean w.sent → All IsClean u.sent
Step-IsClean (visitor_opens k query second at e) =
    Clean-IsClean _ _ _ (Clean-visitor_connect k query second at) e
Step-IsClean (visitor_frame wire at frame v e) =
    Clean-IsClean _ _ _ (Clean-visitor_receive wire at frame v) e
Step-IsClean (agent_opens user second at e) =
    Clean-IsClean _ _ _ (Clean-agent_connect user second at) e
Step-IsClean (agent_frame wire at frame a e) =
    Clean-IsClean _ _ _ (Clean-agent_receive wire at frame a) e
Step-IsClean (agent_leaves a e) = Clean-IsClean _ _ _ (Clean-agent_disconnect a) e
Step-IsClean (observer_opens user wanted second at e) =
    Clean-IsClean _ _ _ (Clean-observer_connect user wanted second at) e
Step-IsClean (observer_frame wire at frame v e) =
    Clean-IsClean _ _ _
      (Sends-weaken _ IsClean (ToStaff-IsClean v.conversation.pk) (Sends-receive wire at frame v)) e
Step-IsClean (observer_leaves v e) =
    Clean-IsClean _ _ _
      (Sends-weaken _ IsClean (ToStaff-IsClean v.conversation.pk) (Sends-disconnect v)) e
Step-IsClean (assigning c candidates e) = Clean-IsClean _ _ _ (Clean-try_assign c candidates) e
Step-IsClean (deactivating user e) = Clean-IsClean _ _ _ (Clean-agent_deactivated user) e
Step-IsClean (closing_desks departments branches e) =
    Clean-IsClean _ _ _ (Clean-close_deserted_desks departments branches) e
Step-IsClean (sweeping_interrupted e) = Clean-IsClean _ _ _ Clean-sweep_interrupted e
Step-IsClean (sweeping_idle e) = Clean-IsClean _ _ _ Clean-sweep_idle_conversations e
Step-IsClean (elsewhere e) = λ k. subst (λ fs. All IsClean fs) (sym e) k

pub Reach-IsClean : {w : World} → Reach w → All IsClean w.sent
Reach-IsClean (start e) = subst (λ fs. All IsClean fs) (sym e) tt
Reach-IsClean (next r st) = Step-IsClean st (Reach-IsClean r)
