-- ===== src/Description.antt =====
-- The description of a system behind its parser (tool/sel4coreplat/sysxml.py): the tree of
-- protection domains made flat, and the checks of `SystemDescription`.
pub mod Irqs
pub mod Ends
use text.Mathlib.Text.{◌==◌ as str_eq}
use Prim.Native.String.{String}
use sel4cp.Prelude.{
  ℕ, ◌+◌, ◌%◌, Bool, true, false, ◌||◌, Option, none, some, List, [], ◌∷◌, ◌++◌, map, Result, ok,
  err, user_error, key_error, zero_division, guard, raise_if, ◌>>=◌, ◌>>◌, ltb, ◌==◌, if◌then◌else◌,
  length,
}

-- Which of the letters r, w and x the text of the permissions holds.
pub record Perms : Type 0 where
  pub readable : Bool
  pub writable : Bool
  pub executable : Bool

pub record SysMap : Type 0 where
  pub mr : String
  pub vaddr : ℕ
  pub perms : Perms
  pub cached : Bool

pub record SysIrq : Type 0 where
  pub irq : ℕ
  pub id : ℕ

pub record SysMemoryRegion : Type 0 where
  pub name : String
  pub size : ℕ
  pub page_size : ℕ
  pub page_count : ℕ
  pub phys_addr : Option ℕ

pub record Channel : Type 0 where
  pub pd_a : String
  pub id_a : ℕ
  pub pd_b : String
  pub id_b : ℕ

-- A protection domain but for its children and its parent. `element`, of which only messages tell,
-- the program's path and the variables to set are left out.
pub record ProtectionDomain : Type 0 where
  pub pd_id : Option ℕ
  pub partition : ℕ
  pub name : String
  pub priority : ℕ
  pub budget : ℕ
  pub period : ℕ
  pub nthreads : ℕ
  pub num_child_pds : ℕ
  pub pp : Bool
  pub root_ppc : Bool
  pub timeouts : Bool
  pub passive : Bool
  pub maps : List SysMap
  pub irqs : List SysIrq

-- The number of domains that the description lists directly below it.
pub record Partition : Type 0 where
  pub id : ℕ
  pub length : ℕ
  pub num_direct : ℕ
  pub num_pds : ℕ

mutual
  pub data PdTree : Type 0 where
    pd : (info : ProtectionDomain) (children : PdTrees) → PdTree

  pub data PdTrees : Type 0 where
    no_pds : PdTrees
    more_pds : (first : PdTree) (others : PdTrees) → PdTrees

-- A domain of the flat list, with its parent.
pub record FlatPd : Type 0 where
  pub info : ProtectionDomain
  pub parent : Option ProtectionDomain

abbrev same_id : Option ℕ → Option ℕ → Bool
same_id none none = true
same_id (some a) (some b) = a == b
same_id _ _ = false

abbrev has_id : Option ℕ → List (Option ℕ) → Bool
has_id id [] = false
has_id id (x ∷ xs) = same_id id x || has_id id xs

abbrev pd_info : PdTree → ProtectionDomain
pd_info (pd info children) = info

-- The check that the children have different identifiers.
unfoldable pub check_child_ids : List (Option ℕ) → PdTrees → Result (Unit {0})
check_child_ids seen no_pds = ok tt
check_child_ids seen (more_pds child children) = do
  raise_if (has_id (pd_info child).pd_id seen) user_error
  check_child_ids ((pd_info child).pd_id ∷ seen) children

-- `_pd_tree_to_list`, and the sum over a tuple of domains; `_pd_flatten` is the sum with no parent.
unfoldable mutual
  unfolding check_child_ids

  pub pd_tree_to_list : Option ProtectionDomain → PdTree → Result (List FlatPd)
  pd_tree_to_list parent (pd info children) = do
    check_child_ids [] children
    flat ← pd_trees_to_list (some info) children
    ok (record { info = info; parent = parent } ∷ flat)

  pub pd_trees_to_list : Option ProtectionDomain → PdTrees → Result (List FlatPd)
  pd_trees_to_list parent no_pds = ok []
  pd_trees_to_list parent (more_pds child children) = do
    first ← pd_tree_to_list parent child
    others ← pd_trees_to_list parent children
    ok (first ++ others)

-- The dictionary of partitions by identifier: in the source's order, with no identifier twice.
abbrev pub find_partition : ℕ → List Partition → Option Partition
find_partition id [] = none
find_partition id (pt ∷ pts) = if id == pt.id then some pt else find_partition id pts

abbrev is_some : {A : Type 0} → Option A → Bool
is_some none = false
is_some (some a) = true

unfoldable pub check_partitions : List Partition → List Partition → Result (List Partition)
check_partitions known [] = ok known
check_partitions known (pt ∷ pts) = do
  raise_if (is_some (find_partition pt.id known)) user_error
  raise_if (ltb 62 pt.num_direct) user_error
  check_partitions (known ++ pt ∷ []) pts

abbrev count_pd : ℕ → List Partition → List Partition
count_pd id [] = []
count_pd id (pt ∷ pts) =
    if id == pt.id then record pt { num_pds = pt.num_pds + 1 } ∷ pts else pt ∷ count_pd id pts

abbrev has_name : String → List String → Bool
has_name name [] = false
has_name name (x ∷ xs) = str_eq name x || has_name name xs

-- The names of the domains, and the partitions with their domains counted.
unfoldable pub check_pds :
    List String → List Partition → List FlatPd → Result (List String × List Partition)
check_pds names pts [] = ok (names, pts)
check_pds names pts (p ∷ ps) = do
  raise_if (has_name p.info.name names) user_error
  guard (is_some (find_partition p.info.partition pts)) key_error
  check_pds (p.info.name ∷ names) (count_pd p.info.partition pts) ps

unfoldable pub check_mrs : List String → List SysMemoryRegion → Result (List String)
check_mrs names [] = ok names
check_mrs names (mr ∷ mrs) = do
  raise_if (has_name mr.name names) user_error
  check_mrs (mr.name ∷ names) mrs

unfoldable pub check_channel_names : List String → List Channel → Result (Unit {0})
check_channel_names names [] = ok tt
check_channel_names names (cc ∷ ccs) = do
  guard (has_name cc.pd_a names) user_error
  guard (has_name cc.pd_b names) user_error
  check_channel_names names ccs

abbrev pub has_number : ℕ → List ℕ → Bool
has_number n [] = false
has_number n (x ∷ xs) = n == x || has_number n xs

-- No number of the list is in the set or twice in the list; the set with the list added.
unfoldable pub add_distinct : List ℕ → List ℕ → Result (List ℕ)
add_distinct seen [] = ok seen
add_distinct seen (n ∷ ns) = do raise_if (has_number n seen) user_error; add_distinct (n ∷ seen) ns

unfoldable pub check_irqs : List ℕ → List FlatPd → Result (List ℕ)
unfolding add_distinct
check_irqs seen [] = ok seen
check_irqs seen (p ∷ ps) = do
  seen' ← add_distinct seen (map (λ i. i.irq) p.info.irqs)
  check_irqs seen' ps

-- The identifiers in use, by the name of the domain.
abbrev pub ids_of : String → List (String × List ℕ) → List ℕ
ids_of name [] = []
ids_of name ((k, ids) ∷ known) = if str_eq name k then ids else ids_of name known

unfoldable pub check_irq_ids :
    List (String × List ℕ) → List FlatPd → Result (List (String × List ℕ))
unfolding add_distinct
check_irq_ids known [] = ok known
check_irq_ids known (p ∷ ps) = do
  ids ← add_distinct (ids_of p.info.name known) (map (λ i. i.id) p.info.irqs)
  check_irq_ids ((p.info.name, ids) ∷ known) ps

unfoldable pub check_channel_ids : List (String × List ℕ) → List Channel → Result (Unit {0})
check_channel_ids known [] = ok tt
check_channel_ids known (cc ∷ ccs) = do
  raise_if (has_number cc.id_a (ids_of cc.pd_a known)) user_error
  raise_if (has_number cc.id_b (ids_of cc.pd_b known)) user_error
  let one = (cc.pd_a, cc.id_a ∷ ids_of cc.pd_a known) ∷ known
  check_channel_ids ((cc.pd_b, cc.id_b ∷ ids_of cc.pd_b one) ∷ one) ccs

abbrev find_mr : String → List SysMemoryRegion → Result SysMemoryRegion
find_mr name [] = err user_error
find_mr name (mr ∷ mrs) = if str_eq name mr.name then ok mr else find_mr name mrs

unfoldable pub check_maps : List SysMemoryRegion → List SysMap → Result (Unit {0})
check_maps mrs [] = ok tt
check_maps mrs (m ∷ ms) = do
  mr ← find_mr m.mr mrs
  guard (ltb 0 mr.page_size) zero_division
  guard (m.vaddr % mr.page_size == 0) user_error
  check_maps mrs ms

unfoldable pub check_all_maps : List SysMemoryRegion → List FlatPd → Result (Unit {0})
unfolding check_maps
check_all_maps mrs [] = ok tt
check_all_maps mrs (p ∷ ps) = do check_maps mrs p.info.maps; check_all_maps mrs ps

-- `SystemDescription.__init__`: the flat domains, and the partitions with their domains counted.
unfoldable pub system_description :
    List SysMemoryRegion
    → PdTrees
    → List Channel
    → List Partition
    → Result (List FlatPd × List Partition)
unfolding pd_tree_to_list check_partitions check_pds check_mrs check_channel_names check_irqs
    check_irq_ids check_channel_ids check_all_maps
system_description memory_regions protection_domains channels partitions = do
  flat ← pd_trees_to_list none protection_domains
  known ← check_partitions [] partitions
  (names, counted) ← check_pds [] known flat
  mr_names ← check_mrs [] memory_regions
  check_channel_names names channels
  irqs ← check_irqs [] flat
  ids ← check_irq_ids [] flat
  check_channel_ids ids channels
  check_all_maps memory_regions flat
  ok (flat, counted)
