-- ===== src/Bore/Inherit.antt =====
-- The three ways in which bore_sched_main.c finds the penalty that a new task inherits. The tasks are
-- a store that maps each pointer to its `struct task_struct`; the lists that the kernel threads through
-- it (`children`, the threads of a group) are fields. The walks up and down the tree run on fuel, and
-- `none` means that it ran out.
pub mod Sample
pub mod Walk
pub mod Value
pub mod Hub
pub mod Frame
use android_device_axion_com.Base.{
  ℕ, zero, suc, ◌+◌, Bool, true, false, not, ◌&&◌, Option, none, some, List, [], ◌∷◌, leb, ◌==◌,
  if◌then◌else◌, u32, add32,
}
use android_device_axion_com.Kernel.{Ptr, null, Policy, Flags, task_is_eligible}
use android_device_axion_com.Bore.Penalty.{Params}
use android_device_axion_com.Bore.Context.{BurstCache, Context, Rank}
use android_device_axion_com.Bore.Cache.{
  burst_cache_sample_limit, burst_cache_scan_limit, Lut, burst_cache_expired, update_burst_cache,
}

pub record Task : Type 0 where
  pub policy : Policy
  pub rank : Rank
  pub real_parent : Ptr
  pub group_leader : Ptr
  pub children : List Ptr
  pub threads : List Ptr
  pub ctx : Context

abbrev pub Tasks : Type 0
Tasks = Ptr → Task

-- A write through `bore_get_ctx(p)`.
unfoldable pub set_ctx : Tasks → Ptr → Context → Tasks
set_ctx t p c q = if q == p then record (t q) { ctx = c } else t q

unfoldable pub bore_task_is_eligible : Task → Bool
bore_task_is_eligible p = task_is_eligible p.policy p.rank.flags

-- `first != head` and `second != head` of the circular list of children.
abbrev first_ne_head : List Ptr → ℕ
first_ne_head [] = 0
first_ne_head (first ∷ rest) = 1

abbrev second_ne_head : List Ptr → ℕ
second_ne_head [] = 0
second_ne_head (first ∷ rest) = first_ne_head rest

unfoldable pub count_children_upto2 : Task → ℕ
count_children_upto2 p = first_ne_head p.children + second_ne_head p.children

-- The loop over the children of a parent, and over the threads of a group.
unfoldable pub scan : Tasks → List Ptr → (count total scan_count : ℕ) → ℕ × ℕ
scan t [] count total scan_count = (count, total)
scan t (child ∷ rest) count total scan_count =
    let on : ℕ × ℕ = elim (bore_task_is_eligible (t child)) [
      | true ↦ scan t rest (count + 1) (add32 total (t child).ctx.penalty) (scan_count + 1)
      | false ↦ scan t rest count total (scan_count + 1)
    ] in
    if leb burst_cache_sample_limit count
    then (count, total)
    else if leb burst_cache_scan_limit scan_count
    then (count, total)
    else on

unfoldable pub inherit_from_parent : Params → Lut → Tasks → Ptr → Bool → ℕ → Tasks × ℕ
inherit_from_parent prm lut t caller clone_parent now =
    let parent = if clone_parent then (t caller).real_parent else caller in
    let ctx = (t parent).ctx in
    let (count, total) = scan t (t parent).children 0 0 0 in
    let bc = update_burst_cache lut ctx count total now in
    let t' =
      if burst_cache_expired prm ctx.subtree now
      then set_ctx t parent (record ctx { subtree = bc })
      else t in
    if parent == null then (t, 0) else (t', (t' parent).ctx.subtree.penalty)

unfoldable pub inherit_from_thread_group : Params → Lut → Tasks → Ptr → ℕ → Tasks × ℕ
inherit_from_thread_group prm lut t p now =
    let leader = (t p).group_leader in
    let ctx = (t leader).ctx in
    let (count, total) = scan t (t leader).threads 0 0 0 in
    let bc = update_burst_cache lut ctx count total now in
    let t' =
      if burst_cache_expired prm ctx.group now
      then set_ctx t leader (record ctx { group = bc })
      else t in
    if leader == null then (t, 0) else (t', (t' leader).ctx.group.penalty)

-- `next != ancestor && next != NULL && count_children_upto2(ancestor) <= sole_child_count`
unfoldable pub passes : Tasks → Ptr → ℕ → Bool
passes t ancestor sole_child_count =
    let next = (t ancestor).real_parent in
    not (next == ancestor)
    && (not (next == null) && leb (count_children_upto2 (t ancestor)) sole_child_count)

unfoldable pub climb : ℕ → Tasks → Ptr → ℕ → Option Ptr
climb zero t ancestor sole_child_count = none
climb (suc fuel) t ancestor sole_child_count =
    let higher = climb fuel t (t ancestor).real_parent 1 in
    if passes t ancestor sole_child_count then higher else some ancestor

-- The walk down through sole children.
unfoldable pub descend : ℕ → Tasks → Ptr → Option Ptr
descend zero t descendant = none
descend (suc fuel) t descendant =
    if count_children_upto2 (t descendant) == 1
    then (elim ((t descendant).children) [
      | [] ↦ some descendant
      | next_descendant ∷ rest ↦ descend fuel t next_descendant
    ])
    else some descendant

-- The loop over the children of the hub, which samples the task at the end of each chain.
unfoldable pub scan_chains : ℕ → Tasks → List Ptr → (count total scan_count : ℕ) → Option (ℕ × ℕ)
scan_chains fuel t [] count total scan_count = some (count, total)
scan_chains fuel t (child ∷ rest) count total scan_count =
    let on : Option (ℕ × ℕ) = elim (descend fuel t child) [
      | none ↦ none
      | some descendant ↦ elim (bore_task_is_eligible (t descendant)) [
        | true ↦
            scan_chains fuel t rest (count + 1) (add32 total (t descendant).ctx.penalty)
              (scan_count + 1)
        | false ↦ scan_chains fuel t rest count total (scan_count + 1)
      ]
    ] in
    if leb burst_cache_sample_limit count
    then some (count, total)
    else if leb burst_cache_scan_limit scan_count
    then some (count, total)
    else on

-- What follows the walk up: the cache of the hub, refreshed when it is old.
unfoldable pub consult_hub : Params → Lut → ℕ → Tasks → ℕ → Ptr → Option (Tasks × ℕ)
consult_hub prm lut fuel t now ancestor =
    let ctx = (t ancestor).ctx in
    let scanned = scan_chains fuel t (t ancestor).children 0 0 0 in
    let refreshed : Option (Tasks × ℕ) = elim scanned [
      | none ↦ none
      | some (count, total) ↦
          let bc = update_burst_cache lut ctx count total now in
          let t' = set_ctx t ancestor (record ctx { subtree = bc }) in
          some (t', (t' ancestor).ctx.subtree.penalty)
    ] in
    if burst_cache_expired prm ctx.subtree now then refreshed else some (t, ctx.subtree.penalty)

unfoldable pub inherit_from_ancestor_hub :
    Params → Lut → ℕ → Tasks → Ptr → Bool → ℕ → Option (Tasks × ℕ)
inherit_from_ancestor_hub prm lut fuel t parent clone_parent now =
    let start = if clone_parent then (t parent).real_parent else parent in
    let sole_child_count : ℕ = if clone_parent then 1 else 0 in
    if start == null then some (t, 0) else (elim (climb fuel t start sole_child_count) [
      | none ↦ none
      | some ancestor ↦ consult_hub prm lut fuel t now ancestor
    ])
