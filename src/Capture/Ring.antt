-- ===== src/Capture/Ring.antt =====
-- The ring of src/capture.rs between the kernel, which retires blocks, and the sensor, which takes one
-- at a time and gives it back. The kernel is the environment: it retires the blocks in order, each only
-- while it owns it, and may do so between any two steps of the sensor.
pub mod Steps
pub mod Reachable
use nids.Prelude.{
  unwrap_or, subst, ==→eq, ℕ, ◌+◌, ◌%◌, ◌≤◌, ◌<◌, ◌≡◌, refl, sym, ap, ◌∙◌, Bool, true, false,
  Option, none, some, ◌==◌, if◌then◌else◌, arith, ltb, Bool-cases, inl, inr, ltb→lt, ltb-false→le,
}
use nids.Capture.{
  MmapCapture, Poll, is_user, next_block, take_block, recycle_block, tp_status_kernel,
}

-- The ring, how many blocks the kernel has retired and the sensor has given back since the start, and
-- the block that a guard holds.
pub record World : Type 0 where
  pub capture : MmapCapture
  pub retired : ℕ
  pub returned : ℕ
  pub held : Option ℕ

abbrev pub retire : ℕ → ℕ → MmapCapture → MmapCapture
retire i status c = record c { block_status = λ j. if j == i then status else c.block_status j }

infix 10 ◌⟶◌
pub data ◌⟶◌ : World → World → Type 0 where
  -- The kernel owns its next block and retires it, with any status that has the user's bit.
  retires :
      (w : World) (status : ℕ)
      → is_user (w.capture.block_status (w.retired % 64)) ≡ false
      → is_user status ≡ true
      → w ⟶ record w { capture = retire (w.retired % 64) status w.capture; retired = w.retired + 1 }
  -- `next_block` hands a block over, while none is held; what the kernel does during the poll is a
  -- step before this one.
  takes :
      (w : World) (ready : Bool) (block_idx : ℕ) (c : MmapCapture)
      → w.held ≡ none
      → next_block w.capture (record { ready = ready; status_after = w.capture.block_status })
        ≡ (some block_idx, c)
      → w ⟶ record w { capture = c; held = some block_idx }
  -- The guard is dropped.
  drops :
      (w : World) (block_idx : ℕ)
      → w.held ≡ some block_idx
      → w ⟶ record w {
        capture = recycle_block block_idx w.capture;
        returned = w.returned + 1;
        held = none;
      }

pub data Reach : World → Type 0 where
  starts :
      (w : World)
      → w.retired ≡ 0
      → w.returned ≡ 0
      → w.held ≡ none
      → w.capture.current_block_idx ≡ 0
      → ((i : ℕ) → is_user (w.capture.block_status i) ≡ false)
      → Reach w
  goes_on : {v w : World} → Reach v → v ⟶ w → Reach w

-- The next block of the sensor behind the one that it holds.
abbrev pub position : Option ℕ → ℕ → ℕ
position none returned = returned
position (some i) returned = returned + 1

abbrev pub IsOldest : Option ℕ → ℕ → Type 0
IsOldest none returned = Unit {0}
IsOldest (some i) returned = i ≡ returned % 64

-- The blocks retired and not given back are the user's, the others the kernel's; the block held is
-- the oldest of the former.
pub record IsRing (w : World) : Type 0 where
  pub bounded : position w.held w.returned ≤ w.retired
  pub room : w.retired ≤ w.returned + 64
  pub at : w.capture.current_block_idx ≡ position w.held w.returned % 64
  pub oldest : IsOldest w.held w.returned
  pub users :
      (j : ℕ) → w.returned ≤ j → j < w.retired → is_user (w.capture.block_status (j % 64)) ≡ true
  pub kernels :
      (j : ℕ)
      → w.retired ≤ j
      → j < w.returned + 64
      → is_user (w.capture.block_status (j % 64)) ≡ false
