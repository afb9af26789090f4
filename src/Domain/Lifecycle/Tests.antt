-- ===== src/Domain/Lifecycle/Tests.antt =====
-- Two of three communicators in a process.
use hy_link.Domain.Lifecycle.{
  Process, Answers, init_pcie_for_domain, register_raw_comm, register_after_init,
  destroy_pcie_for_domain, init_step, here, more, new_process,
}
use hy_link.Domain.Lifecycle.Sound.{with_comm, IsSound, Run-IsSound}
use hy_link.Prelude.{ℕ, suc, ◌<◌, ◌≡◌, ◌↔◌, refl, true, false, arith}

abbrev all_given : Answers
all_given = record { enabled = true; comm_made = true; stream_made = true; recvbuf_made = true }

-- Two communicators of three are set up.
abbrev one_up : Process
one_up = register_after_init true all_given 0 new_process

abbrev two_up : Process
two_up = register_after_init true all_given 2 one_up

two_live : two_up.live ≡ 2
unfolding register_after_init register_raw_comm init_pcie_for_domain
two_live = refl

last_finalizes : (destroy_pcie_for_domain 2 (destroy_pcie_for_domain 0 two_up)).finalizes ≡ 1
unfolding destroy_pcie_for_domain register_after_init register_raw_comm init_pcie_for_domain
last_finalizes = refl

Run-IsSound_example :
    IsSound 3 two_up
    × (((destroy_pcie_for_domain 0 two_up).finalizes ≡ suc two_up.finalizes)
        ↔ ((i : ℕ) → i < 3 → with_comm (destroy_pcie_for_domain 0 two_up) i ≡ false))
unfolding register_after_init register_raw_comm init_pcie_for_domain
Run-IsSound_example =
    Run-IsSound 3 two_up 0
      (more new_process one_up two_up (init_step new_process true all_given 0 (omega arith) refl) (
        more one_up two_up two_up (init_step one_up true all_given 2 (omega arith) refl)
          (here two_up)))
      (omega arith) refl
