-- ===== src/Capture/Ring/Reachable.antt =====
-- Whatever the kernel and the sensor do: the ring of src/capture.rs in every reachable world.
use nids.Prelude.{subst, ℕ, ◌%◌, ◌≤◌, ◌<◌, ◌≡◌, sym, ap, ◌∙◌, true, false, none, some, arith}
use nids.Capture.{Poll, is_user, next_block}
use nids.Capture.Ring.{
  World, ◌⟶◌, retires, takes, drops, Reach, starts, goes_on, position, IsOldest, IsRing,
}
use nids.Capture.Ring.Steps.{next_block-ready, retires-IsRing, takes-IsRing, drops-IsRing}

starts-IsRing :
    (w : World)
    → w.retired ≡ 0
    → w.returned ≡ 0
    → w.held ≡ none
    → w.capture.current_block_idx ≡ 0
    → ((i : ℕ) → is_user (w.capture.block_status i) ≡ false)
    → IsRing w
starts-IsRing w no_retired no_returned free first kernel = record {
  bounded = subst (λ held. position held w.returned ≤ w.retired) (sym free) (omega arith);
  room = omega arith;
  at =
      subst (λ held. w.capture.current_block_idx ≡ position held w.returned % 64) (sym free)
        (omega (arith, first, no_returned));
  oldest = subst (λ held. IsOldest held w.returned) (sym free) tt;
  users = λ j from below. absurd (omega arith);
  kernels = λ j from below. kernel (j % 64);
}

step-IsRing : {v w : World} → v ⟶ w → IsRing v → IsRing w
step-IsRing (retires w status free user) r = retires-IsRing w status free user r
step-IsRing (takes w ready block_idx c free took) r = takes-IsRing w ready block_idx c free took r
step-IsRing (drops w block_idx holds) r = drops-IsRing w block_idx holds r

-- In every world that the kernel and the sensor can reach, the statuses divide the ring into the
-- blocks that are retired and not given back, which are the user's, and the others, which are the
-- kernel's; a block held is the oldest of the former, and there are 64 of them at most.
pub Reach-IsRing : {w : World} → Reach w → IsRing w
Reach-IsRing (starts w a b c d e) = starts-IsRing w a b c d e
Reach-IsRing (goes_on reach step) = step-IsRing step (Reach-IsRing reach)

-- In every reachable world in which no block is held and one is retired and not given back,
-- next_block hands over the oldest of those at once, whatever the poll would say.
pub next_block-Reach :
    (w : World) (poll : Poll)
    → Reach w
    → w.held ≡ none
    → w.returned < w.retired
    → (next_block w.capture poll).0 ≡ some (w.returned % 64)
next_block-Reach w poll reach free more =
    let r = Reach-IsRing reach in
    let ring = w.capture in
    let at : ring.current_block_idx ≡ w.returned % 64 =
      subst (λ held. ring.current_block_idx ≡ position held w.returned % 64) free r.at in
    let there : is_user (ring.block_status ring.current_block_idx) ≡ true =
      subst (λ i. is_user (ring.block_status i) ≡ true) (sym at)
        (r.users w.returned (omega arith) more) in
    ap (λ o. o.0) (next_block-ready ring poll there) ∙ ap some at
