-- ===== src/Channel.antt =====
-- The bounded channel of `tokio::sync::mpsc` between the callers of the client and its sender
-- task, as an interface: its operations, and the documented laws that the client relies on.
use electrum_sdk.Base.{ℕ, ◌≤◌, ◌<◌, ◌≡◌, List, [], ◌∷◌, ◌++◌, Option, none, some, length}

pub record Channel (A : Type 0) : Type 1 where
  pub Chan : Type 0
  -- `mpsc::channel(capacity)`
  pub create : ℕ → Chan
  pub try_send : Chan → A → Option Chan
  pub recv : Chan → Option (A × Chan)
  -- What was sent and not yet received, the oldest first, and how much of it fits.
  pub pending : Chan → List A
  pub capacity : Chan → ℕ

pub record IsChannel {A : Type 0} (ch : Channel A) : Type 0 where
  pub pending-create : (n : ℕ) → ch.pending (ch.create n) ≡ []
  pub capacity-create : (n : ℕ) → ch.capacity (ch.create n) ≡ n
  pub try_send_room :
      (q : ch.Chan) (a : A)
      → length (ch.pending q) < ch.capacity q
      → (q' : ch.Chan) × (ch.try_send q a ≡ some q')
        × (ch.pending q' ≡ ch.pending q ++ a ∷ [])
        × (ch.capacity q' ≡ ch.capacity q)
  pub try_send_full :
      (q : ch.Chan) (a : A) → ch.capacity q ≤ length (ch.pending q) → ch.try_send q a ≡ none
  pub recv_empty : (q : ch.Chan) → ch.pending q ≡ [] → ch.recv q ≡ none
  pub recv_first :
      (q : ch.Chan) (a : A) (rest : List A)
      → ch.pending q ≡ a ∷ rest
      → (q' : ch.Chan) × (ch.recv q ≡ some (a, q'))
        × (ch.pending q' ≡ rest)
        × (ch.capacity q' ≡ ch.capacity q)
