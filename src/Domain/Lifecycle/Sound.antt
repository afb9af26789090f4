-- ===== src/Domain/Lifecycle/Sound.antt =====
-- multipath-orchestrator/libampccl/core/comm_init.cc: the count of live communicators, and when the
-- library is finalized.
use hy_link.Prelude.{
  ℕ, suc, ◌+◌, ◌<◌, ◌≡◌, ◌↔◌, ◌∙◌, refl, sym, Bool, true, false, ◌&&◌, arith, inl, inr,
  if◌then◌else◌, if-intro, Bool-cases, assign_at, count_marked, count_marked-add, count_marked-ext,
  count_marked-zero, ◌==◌,
}
use hy_link.Domain.Lifecycle.{
  new_domain, Process, Answers, init_pcie_for_domain, destroy_pcie_for_domain, register_raw_comm,
  register_after_init, Step, init_step, destroy_step, Run, here, more, new_process,
}

-- The raw communicators whose domains have a PCIe communicator.
abbrev pub with_comm : Process → ℕ → Bool
with_comm p raw = (p.domains raw).has_pcie_comm

-- The communicators of the `n` domains are counted, and a domain without one holds nothing else.
pub record IsSound (n : ℕ) (p : Process) : Type 0 where
  pub counted : p.live ≡ count_marked (with_comm p) n
  pub holds_nothing :
      (raw : ℕ)
      → with_comm p raw ≡ false
      → ((p.domains raw).has_pcie_stream ≡ false) × ((p.domains raw).has_pcie_recvbuf ≡ false)

-- Without the communicator of one domain there is one less.
cleared_count :
    (p : Process) (n raw : ℕ)
    → raw < n
    → with_comm p raw ≡ true
    → count_marked (with_comm p) n
      ≡ count_marked (λ j. (assign_at p.domains raw new_domain j).has_pcie_comm) n + 1
cleared_count p n raw h on =
    count_marked-add (λ j. (assign_at p.domains raw new_domain j).has_pcie_comm) (with_comm p) n raw
      h (ground arith) on (λ j apart. ground (arith, apart))

-- A domain without a communicator may be replaced by a new one.
register-IsSound :
    (n : ℕ) (p : Process) (raw : ℕ)
    → with_comm p raw ≡ false
    → IsSound n p
    → IsSound n (register_raw_comm raw p)
unfolding register_raw_comm
register-IsSound n p raw off s = record {
  counted =
      s.counted
      ∙ count_marked-ext (with_comm p) _ n (λ i _. elim (Bool-cases (raw == i)) [
        | inl t ↦ let e : raw ≡ i = ground arith in ground (arith, off, t, e)
        | inr t ↦ ground (arith, t)
      ]);
  holds_nothing = λ other off'. elim (Bool-cases (raw == other)) [
    | inl t ↦ (ground (arith, t), ground (arith, t))
    | inr t ↦
        let old = s.holds_nothing other (ground (arith, off', t)) in
        (ground (arith, t, old), ground (arith, t, old))
  ];
}

init-IsSound :
    (n : ℕ) (p : Process) (a : Answers) (raw : ℕ)
    → raw < n
    → with_comm p raw ≡ false
    → IsSound n p
    → IsSound n (init_pcie_for_domain a raw p)
unfolding init_pcie_for_domain
init-IsSound n p a raw h off s =
    if-intro (IsSound n) (a.enabled && a.comm_made)
      (λ _. record {
        counted =
            let more =
              count_marked-add (with_comm p)
                (λ j.
                  (assign_at p.domains raw
                    (record {
                      has_pcie_comm = true;
                      has_pcie_stream =
                          if a.stream_made then true else (p.domains raw).has_pcie_stream;
                      has_pcie_recvbuf =
                          if a.recvbuf_made then true else (p.domains raw).has_pcie_recvbuf;
                    })
                    j).has_pcie_comm)
                n raw h off (ground arith) (λ j apart. ground (arith, apart)) in
            let before = s.counted in omega (arith, more, before);
        holds_nothing = λ other off'. elim (Bool-cases (raw == other)) [
          | inl t ↦ absurd (ground (arith, t, off'))
          | inr t ↦
              let old = s.holds_nothing other (ground (arith, off', t)) in
              (ground (arith, t, old), ground (arith, t, old))
        ];
      })
      (λ _. s)

destroy-IsSound :
    (n : ℕ) (p : Process) (raw : ℕ)
    → raw < n
    → IsSound n p
    → IsSound n (destroy_pcie_for_domain raw p)
unfolding destroy_pcie_for_domain
destroy-IsSound n p raw h s =
    if-intro (IsSound n) (with_comm p raw)
      (λ on. record {
        counted =
            let less = cleared_count p n raw h on in
            let before = s.counted in omega (arith, less, before);
        holds_nothing = λ other off. elim (Bool-cases (raw == other)) [
          | inl t ↦ (ground (arith, t), ground (arith, t))
          | inr t ↦
              let old = s.holds_nothing other (ground (arith, off, t)) in
              (ground (arith, t, old), ground (arith, t, old))
        ];
      })
      (λ off. unfold register_raw_comm in register-IsSound n p raw off s)

Step-IsSound : (n : ℕ) (p next : Process) → Step n p next → IsSound n p → IsSound n next
unfolding register_after_init
Step-IsSound n _ _ (init_step p allow a raw h off) s =
    let registered = register-IsSound n p raw off s in
    if-intro (IsSound n) allow
      (λ _.
        init-IsSound n (register_raw_comm raw p) a raw h (unfold register_raw_comm in ground arith)
          registered)
      (λ _. registered)
Step-IsSound n _ _ (destroy_step p raw h) s = destroy-IsSound n p raw h s

Run-keeps : (n : ℕ) (p last : Process) → Run n p last → IsSound n p → IsSound n last
Run-keeps n _ _ (here p) s = s
Run-keeps n _ _ (more p next last step run) s =
    Run-keeps n next last run (Step-IsSound n p next step s)

new-IsSound : (n : ℕ) → IsSound n new_process
new-IsSound n = record {
  counted = sym ((count_marked-zero (with_comm new_process) n).1 (λ i k. refl));
  holds_nothing = λ raw off. (refl, refl);
}

-- After any calls of the hooks one after the other, on raw communicators that the vendor library gives
-- out once at a time: the live communicators are counted, a domain without one holds no stream and
-- no buffer, and destroying a domain's communicator finalizes the library exactly if no domain has
-- one left.
pub Run-IsSound :
    (n : ℕ) (p : Process) (raw : ℕ)
    → Run n new_process p
    → raw < n
    → with_comm p raw ≡ true
    → IsSound n p
      × (((destroy_pcie_for_domain raw p).finalizes ≡ suc p.finalizes)
          ↔ ((i : ℕ) → i < n → with_comm (destroy_pcie_for_domain raw p) i ≡ false))
unfolding destroy_pcie_for_domain
Run-IsSound n p raw run h on =
    let sound = Run-keeps n new_process p run (new-IsSound n) in
    let less = cleared_count p n raw h on in
    let before = sound.counted in
    let none_left =
      count_marked-zero (λ j. (assign_at p.domains raw new_domain j).has_pcie_comm) n in
    (
      sound,
      rw on (
        λ e. none_left.0 (ground (arith, e, less, before)),
        λ all. let z = none_left.1 all in ground (arith, z, less, before),
      ),
    )
