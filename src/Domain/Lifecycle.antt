-- ===== src/Domain/Lifecycle.antt =====
-- multipath-orchestrator/libampccl: when the PCIe communicators of a process are made and destroyed
-- (core/comm_init.cc, core/domain_manager.h), and how the hooks of the communicators call this
-- (hook/nccl_hook.cc). Ranks and bootstrap bytes are handed on unread and left out; what the library
-- and the runtime give is an argument. The lazy set-up (EnsurePCIeForDomain), which nothing calls, is
-- left out.
pub mod Sound
mod Tests
use hy_link.Prelude.{ℕ, suc, ◌-◌, ◌<◌, ◌≡◌, Bool, true, false, ◌&&◌, if◌then◌else◌, assign_at, ◌==◌}

pub record PcieDomain : Type 0 where
  pub has_pcie_comm : Bool
  pub has_pcie_stream : Bool
  pub has_pcie_recvbuf : Bool

abbrev pub new_domain : PcieDomain
new_domain = record { has_pcie_comm = false; has_pcie_stream = false; has_pcie_recvbuf = false }

-- The domains by their raw communicators, new where none is registered; g_pccl_comm_live; and how
-- often pcclFinalize was called.
pub record Process : Type 0 where
  pub domains : ℕ → PcieDomain
  pub live : ℕ
  pub finalizes : ℕ

-- IsPCIeEnabled, pcclCommInitRank, the creation of the stream, and the allocation of the buffer.
pub record Answers : Type 0 where
  pub enabled : Bool
  pub comm_made : Bool
  pub stream_made : Bool
  pub recvbuf_made : Bool

-- For a rank that passes its range test.
pub init_pcie_for_domain : Answers → ℕ → Process → Process
init_pcie_for_domain a raw p =
    if a.enabled && a.comm_made
    then record p {
      domains = assign_at p.domains raw (record {
        has_pcie_comm = true;
        has_pcie_stream = if a.stream_made then true else (p.domains raw).has_pcie_stream;
        has_pcie_recvbuf = if a.recvbuf_made then true else (p.domains raw).has_pcie_recvbuf;
      });
      live = suc p.live;
    }
    else p

-- The count is positive where a domain has a communicator.
pub destroy_pcie_for_domain : ℕ → Process → Process
destroy_pcie_for_domain raw p =
    let left = p.live - 1 in
    if (p.domains raw).has_pcie_comm
    then record {
      domains = assign_at p.domains raw new_domain;
      live = left;
      finalizes = if left == 0 then suc p.finalizes else p.finalizes;
    }
    else record p { domains = assign_at p.domains raw new_domain }

-- A new domain takes the place of the one of the raw communicator.
pub register_raw_comm : ℕ → Process → Process
register_raw_comm raw p = record p { domains = assign_at p.domains raw new_domain }

-- RegisterNcclCommAfterInit; `allow` is the decision on the node scope.
pub register_after_init : Bool → Answers → ℕ → Process → Process
unfolding register_raw_comm init_pcie_for_domain
register_after_init allow a raw p =
    let registered = register_raw_comm raw p in
    if allow then init_pcie_for_domain a raw registered else registered

-- One call of a hook, one after the other, on one of `n` raw communicators. The vendor library does
-- not give out the address of a communicator that is not destroyed.
pub data Step (n : ℕ) : Process → Process → Type 0 where
  init_step :
      (p : Process) (allow : Bool) (a : Answers) (raw : ℕ)
      → raw < n
      → (p.domains raw).has_pcie_comm ≡ false
      → Step n p (register_after_init allow a raw p)
  destroy_step : (p : Process) (raw : ℕ) → raw < n → Step n p (destroy_pcie_for_domain raw p)

pub data Run (n : ℕ) : Process → Process → Type 0 where
  here : (p : Process) → Run n p p
  more : (p next last : Process) → Step n p next → Run n next last → Run n p last

abbrev pub new_process : Process
new_process = record { domains = λ raw. new_domain; live = 0; finalizes = 0 }
