-- ===== src/Capture/Tests.antt =====
-- A block retired, taken and given back, and the theorems on the ring.
use nids.Prelude.{◌≡◌, refl, false, none, some, List, [], ◌∷◌, arith, map, All}
use nids.Prelude.Outcome.{returns}
use nids.Capture.{Poll, next_block, take_block}
use nids.Capture.Chunk.{Frame, IsFrame, raw}
use nids.Capture.Iterator.{iterator, encode_frames, all_packets, all_packets-encode_frames}
use nids.Capture.Ring.{World, Reach, starts, goes_on, retire, retires, takes, IsRing}
use nids.Capture.Ring.Reachable.{Reach-IsRing, next_block-Reach}

abbrev idle : World
idle = record {
  capture = record { current_block_idx = 0; block_status = λ i. 0 };
  retired = 0;
  returned = 0;
  held = none;
}

-- The kernel has retired the first block, with a status of 5.
abbrev filled : World
filled = record idle { capture = retire 0 5 idle.capture; retired = 1 }

idle-Reach : Reach idle
idle-Reach = starts idle refl refl refl refl (λ i. refl)

filled-Reach : Reach filled
filled-Reach = goes_on idle-Reach (retires idle 5 refl refl)

-- The sensor holds it.
abbrev taken : World
taken = record filled {
  capture = record { current_block_idx = 1; block_status = filled.capture.block_status };
  held = some 0;
}

took :
    next_block filled.capture (record { ready = false; status_after = filled.capture.block_status })
    ≡ (some 0, taken.capture)
unfolding next_block take_block
took = refl

taken-Reach : Reach taken
taken-Reach = goes_on filled-Reach (takes filled false 0 taken.capture refl took)

Reach-IsRing_example : IsRing taken
Reach-IsRing_example = Reach-IsRing taken-Reach

abbrev no_poll : Poll
no_poll = record { ready = false; status_after = λ i. 0 }

next_block-Reach_example : (next_block filled.capture no_poll).0 ≡ some 0
next_block-Reach_example = next_block-Reach filled no_poll filled-Reach refl (omega arith)

abbrev two_frames : List Frame
two_frames =
    record {
      sec = 1;
      nsec = 2;
      len = 3;
      gap = 0 ∷ 0 ∷ [];
      bytes = 7 ∷ 8 ∷ 9 ∷ [];
      padding = 0 ∷ 0 ∷ 0 ∷ [];
    }
    ∷ record { sec = 4; nsec = 5; len = 600; gap = []; bytes = 10 ∷ []; padding = [] }
    ∷ []

two_frames-IsFrame : All IsFrame two_frames
two_frames-IsFrame = (
  record {
    sec = omega arith;
    nsec = omega arith;
    len = omega arith;
    gap = omega arith;
    bytes = omega arith;
    padding = omega arith;
  },
  (
    record {
      sec = omega arith;
      nsec = omega arith;
      len = omega arith;
      gap = omega arith;
      bytes = omega arith;
      padding = omega arith;
    },
    tt,
  ),
)

all_packets-encode_frames_example :
    all_packets 3 (0 ∷ 0 ∷ encode_frames two_frames (255 ∷ [])) (iterator 2 0 2 5)
    ≡ returns (map (raw 5) two_frames)
all_packets-encode_frames_example =
    all_packets-encode_frames two_frames (0 ∷ 0 ∷ []) (255 ∷ []) 0 5 two_frames-IsFrame
      (omega arith)
