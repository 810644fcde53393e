-- ===== src/Capture/Ring/Steps.antt =====
-- What each step of the ring of src/capture.rs keeps.
use nids.Prelude.{
  unwrap_or, subst, ==→eq, ℕ, ◌+◌, ◌%◌, ◌≤◌, ◌<◌, ◌≡◌, refl, sym, ap, ◌∙◌, Bool, true, false,
  Option, none, some, ◌==◌, if◌then◌else◌, arith, ltb, Bool-cases, inl, inr, ltb→lt, ltb-false→le,
}
use nids.Capture.{
  MmapCapture, Poll, is_user, next_block, take_block, recycle_block, tp_status_kernel,
}
use nids.Capture.Ring.{World, retire, position, IsOldest, IsRing}

-- A block that is ready is taken, whatever `poll` says.
pub next_block-ready :
    (c : MmapCapture) (poll : Poll)
    → is_user (c.block_status c.current_block_idx) ≡ true
    → next_block c poll
      ≡ (some c.current_block_idx, record c { current_block_idx = (c.current_block_idx + 1) % 64 })
unfolding next_block take_block
next_block-ready c poll h = ground (arith, h)

-- A block that is not ready is not taken if the poll changes nothing.
next_block-idle :
    (c : MmapCapture) (ready : Bool)
    → is_user (c.block_status c.current_block_idx) ≡ false
    → next_block c (record { ready = ready; status_after = c.block_status }) ≡ (none, c)
unfolding next_block
next_block-idle c ready h = ground (arith, h)

pick :
    (b : Bool) (x y : ℕ) (v : Bool)
    → (b ≡ true → is_user x ≡ v)
    → (b ≡ false → is_user y ≡ v)
    → is_user (if b then x else y) ≡ v
pick true x y v h k = h refl
pick false x y v h k = k refl

position-le : (held : Option ℕ) (returned : ℕ) → returned ≤ position held returned
position-le none returned = omega arith
position-le (some i) returned = omega arith

pub retires-IsRing :
    (w : World) (status : ℕ)
    → is_user (w.capture.block_status (w.retired % 64)) ≡ false
    → is_user status ≡ true
    → IsRing w
    → IsRing
        (record w { capture = retire (w.retired % 64) status w.capture; retired = w.retired + 1 })
retires-IsRing w status free user r = record {
  bounded = omega (arith, r.bounded);
  room = elim (Bool-cases (ltb w.retired (w.returned + 64))) [
    | inl more ↦ omega (arith, ltb→lt w.retired (w.returned + 64) more)
    | inr full ↦
        let all : w.retired ≡ w.returned + 64 =
          omega (arith, r.room, ltb-false→le w.retired (w.returned + 64) full) in
        let same : w.returned % 64 ≡ w.retired % 64 = omega (arith, all) in
        let taken = r.users w.returned (omega arith) (omega (arith, all)) in
        absurd (ground (arith, taken, free, same))
  ];
  at = r.at;
  oldest = r.oldest;
  users = λ j from below.
      pick (j % 64 == w.retired % 64) status (w.capture.block_status (j % 64)) true (λ e. user)
        (λ other. elim (Bool-cases (ltb j w.retired)) [
          | inl before ↦ r.users j from (ltb→lt j w.retired before)
          | inr last ↦
              let same : j ≡ w.retired = omega (arith, ltb-false→le j w.retired last, below) in
              absurd (ground (arith, other, ap (λ n. n % 64) same))
        ]);
  kernels = λ j from below.
      pick (j % 64 == w.retired % 64) status (w.capture.block_status (j % 64)) false
        (λ e. absurd (
          omega (
            arith,
            ==→eq (j % 64) (w.retired % 64) e,
            from,
            below,
            r.bounded,
            position-le w.held w.returned,
          )))
        (λ other. r.kernels j (omega arith) below);
}

pub takes-IsRing :
    (w : World) (ready : Bool) (block_idx : ℕ) (c : MmapCapture)
    → w.held ≡ none
    → next_block w.capture (record { ready = ready; status_after = w.capture.block_status })
      ≡ (some block_idx, c)
    → IsRing w
    → IsRing (record w { capture = c; held = some block_idx })
takes-IsRing w ready block_idx c free took r =
    let ring = w.capture in
    let at : ring.current_block_idx ≡ w.returned % 64 =
      subst (λ held. ring.current_block_idx ≡ position held w.returned % 64) free r.at in
    elim (Bool-cases (is_user (ring.block_status ring.current_block_idx))) [
      | inl there ↦
          let poll : Poll = record { ready = ready; status_after = ring.block_status } in
          let equal = sym took ∙ next_block-ready ring poll there in
          let index : some block_idx ≡ some ring.current_block_idx = ap (λ o. o.0) equal in
          let same : block_idx ≡ w.returned % 64 = ap (unwrap_or 0) index ∙ at in
          let more : w.returned < w.retired = elim (Bool-cases (ltb w.returned w.retired)) [
            | inl before ↦ ltb→lt w.returned w.retired before
            | inr level ↦
                let free_there =
                  r.kernels w.returned (ltb-false→le w.returned w.retired level) (omega arith) in
                absurd (ground (arith, free_there, there, at))
          ] in
          subst (λ c'. IsRing (record w { capture = c'; held = some block_idx }))
            (sym (ap (λ o. o.1) equal))
            (record {
              bounded = omega (arith, more);
              room = r.room;
              at = omega (arith, at);
              oldest = same;
              users = r.users;
              kernels = r.kernels;
            })
      | inr absent ↦
          let idle = sym took ∙ next_block-idle ring ready absent in
          let none_there : some block_idx ≡ none = ap (λ o. o.0) idle in absurd (cc)
    ]

pub drops-IsRing :
    (w : World) (block_idx : ℕ)
    → w.held ≡ some block_idx
    → IsRing w
    → IsRing (record w {
      capture = recycle_block block_idx w.capture;
      returned = w.returned + 1;
      held = none;
    })
unfolding recycle_block
drops-IsRing w block_idx holds r =
    let same : block_idx ≡ w.returned % 64 =
      subst (λ held. IsOldest held w.returned) holds r.oldest in
    let more : w.returned + 1 ≤ w.retired =
      subst (λ held. position held w.returned ≤ w.retired) holds r.bounded in
    let old = w.capture.block_status in
    record {
      bounded = more;
      room = omega (arith, r.room);
      at = subst (λ held. w.capture.current_block_idx ≡ position held w.returned % 64) holds r.at;
      oldest = tt;
      users = λ j from below.
          pick (j % 64 == block_idx) tp_status_kernel (old (j % 64)) true
            (λ e. absurd (omega (arith, ==→eq (j % 64) block_idx e, same, from, below, r.room)))
            (λ other. r.users j (omega (arith, from)) below);
      kernels = λ j from below.
          pick (j % 64 == block_idx) tp_status_kernel (old (j % 64)) false (λ e. refl)
            (λ other. elim (Bool-cases (ltb j (w.returned + 64))) [
              | inl before ↦ r.kernels j from (ltb→lt j (w.returned + 64) before)
              | inr last ↦
                  let all : j ≡ w.returned + 64 =
                    omega (arith, ltb-false→le j (w.returned + 64) last, below) in
                  let equal : j % 64 ≡ block_idx = omega (arith, all, same) in
                  absurd (ground (arith, other, equal))
            ]);
    }
