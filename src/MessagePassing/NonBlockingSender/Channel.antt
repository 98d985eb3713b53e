-- ===== src/MessagePassing/NonBlockingSender/Channel.antt =====
-- A bounded channel, the abstract view of a queue of messages.
use mathlib.Core.List.{append_assoc, append-nil}
use inc_mw_com.Base.{ℕ, ◌<◌, ◌≡◌, refl, sym, ap, ◌∙◌, List, [], ◌∷◌, ◌++◌, length}
use inc_mw_com.MessagePassing.{Message}

pub record Channel : Type 0 where
  pub in_flight : List Message
  pub delivered : List Message

abbrev pub channel : List Message → List Message → Channel
channel q out = record { in_flight = q; delivered = out }

-- What is seen of a step.
pub data Label : Type 0 where
  accepted refused : Message → Label
  internal : Label

-- A message may be accepted while there are fewer in flight than the bound.
pub data ChannelStep (bound : ℕ) : Label → Channel → Channel → Type 0 where
  accepts :
      (q out : List Message) (m : Message)
      → length q < bound
      → ChannelStep bound (accepted m) (channel q out) (channel (q ++ m ∷ []) out)
  refuses : (c : Channel) (m : Message) → ChannelStep bound (refused m) c c
  delivers :
      (q out : List Message) (m : Message)
      → ChannelStep bound internal (channel (m ∷ q) out) (channel q (out ++ m ∷ []))
  waits : (c : Channel) → ChannelStep bound internal c c

pub data ChannelRun (bound : ℕ) : List Label → Channel → Channel → Type 0 where
  done : (c : Channel) → ChannelRun bound [] c c
  next :
      (l : Label) (ls : List Label) (a b c : Channel)
      → ChannelStep bound l a b
      → ChannelRun bound ls b c
      → ChannelRun bound (l ∷ ls) a c

abbrev pub accepted_messages : List Label → List Message
accepted_messages [] = []
accepted_messages (accepted m ∷ ls) = m ∷ accepted_messages ls
accepted_messages (refused m ∷ ls) = accepted_messages ls
accepted_messages (internal ∷ ls) = accepted_messages ls

-- All messages that the channel has had, in the order of acceptance.
abbrev pub history : Channel → List Message
history c = c.delivered ++ c.in_flight

step_history :
    (bound : ℕ) (l : Label) (a b : Channel)
    → ChannelStep bound l a b
    → history b ≡ history a ++ accepted_messages (l ∷ [])
step_history bound l a b (accepts q out m h) = sym (append_assoc out q (m ∷ []))
step_history bound l a b (refuses c m) = sym (append-nil (history c))
step_history bound l a b (delivers q out m) =
    append_assoc out (m ∷ []) q ∙ sym (append-nil (out ++ m ∷ q))
step_history bound l a b (waits c) = sym (append-nil (history c))

accepted-cons :
    (l : Label) (ls : List Label)
    → accepted_messages (l ∷ []) ++ accepted_messages ls ≡ accepted_messages (l ∷ ls)
accepted-cons (accepted m) ls = refl
accepted-cons (refused m) ls = refl
accepted-cons internal ls = refl

-- A channel delivers what it accepts, in order, and nothing else.
pub run_history :
    (bound : ℕ) (ls : List Label) (a c : Channel)
    → ChannelRun bound ls a c
    → history c ≡ history a ++ accepted_messages ls
run_history bound ls a c (done d) = sym (append-nil (history d))
run_history bound ls a c (next l ls' a' b c' first later) =
    run_history bound ls' b c' later
    ∙ ap (λ xs. xs ++ accepted_messages ls') (step_history bound l a' b first)
    ∙ append_assoc (history a') (accepted_messages (l ∷ [])) (accepted_messages ls')
    ∙ ap (λ xs. history a' ++ xs) (accepted-cons l ls')
