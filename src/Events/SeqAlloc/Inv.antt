-- ===== src/Events/SeqAlloc/Inv.antt =====
-- The invariant that ties the numbers of a source to its state file.
pub mod Draw
pub mod Close
pub mod Kept
use aikey_proxy.Prelude.{
  ℕ, ◌+◌, ◌≤◌, ◌<◌, ◌≡◌, arith, String, Option, none, some, List, [], ◌∷◌, ok, true, false,
  if◌then◌else◌,
}
use aikey_proxy.Prelude.Words.{sign_bound, sub64, slt64}
use aikey_proxy.Events.StateFile.{stored}
use aikey_proxy.Events.SeqAlloc.{SeqAllocator}
use aikey_proxy.Events.SeqAlloc.Run.{Process}

-- The numbers fall along the list and stay below `n`: the latest is the greatest.
abbrev pub Below : ℕ → List ℕ → Type 0
Below n [] = Unit {0}
Below n (s ∷ ss) = (s < n) × Below s ss

pub Below-mono : {m n : ℕ} (ss : List ℕ) → m ≤ n → Below m ss → Below n ss
Below-mono [] h b = tt
Below-mono (s ∷ ss) h b = (omega arith, b.1)

abbrev pub Above : ℕ → List ℕ → Type 0
Above n [] = Unit {0}
Above n (s ∷ ss) = (n < s) × Above n ss

-- A running allocator, against the mark `hi` on the disk; `floor` is the mark that the source
-- started from.
pub record IsLive (path : String) (block floor hi : ℕ) (issued : List ℕ) (a : SeqAllocator)
    : Type 0 where
  pub path_eq : a.state_path ≡ path
  pub block_eq : a.block_size ≡ block
  pub hi_eq : a.reserved_hi ≡ hi
  pub positive : floor < a.next
  pub within : a.next ≤ hi + 1
  pub bounded : hi < a.next + block
  pub below : Below a.next issued

abbrev pub Live : String → ℕ → ℕ → ℕ → List ℕ → Option SeqAllocator → Type 0
Live path block floor hi issued none = Unit
Live path block floor hi issued (some a) = IsLive path block floor hi issued a

pub record Inv (path : String) (block floor hi : ℕ) (p : Process) : Type 0 where
  pub fits : hi < sign_bound
  pub disk : stored path p.fs ≡ ok hi
  pub burned : Below (hi + 1) p.issued
  pub floored : floor ≤ hi
  pub above : Above floor p.issued
  pub live : Live path block floor hi p.issued p.alloc

-- The mark after a step, and how far it may grow.
abbrev pub Grows : String → ℕ → ℕ → ℕ → Process → Type 0
Grows path block floor hi q = (hi' : ℕ) × (hi' ≤ hi + block) × Inv path block floor hi' q

pub slt64→lt : (a b : ℕ) → a < sign_bound → b ≤ sign_bound → slt64 a b ≡ true → a < b
slt64→lt a b ha hb h = ground arith

pub slt64→le : (a b : ℕ) → a < sign_bound → b < sign_bound → slt64 a b ≡ false → b ≤ a
slt64→le a b ha hb h = ground arith

pub used_next :
    (n : ℕ) → 0 < n → n ≤ sign_bound → (if slt64 (sub64 n 1) 0 then 0 else sub64 n 1) + 1 ≡ n
used_next n h k = ground arith
