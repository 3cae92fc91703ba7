-- ===== src/Stackless/Executor/Priority.antt =====
-- crates/krio-stackless/src/executor.rs: `build_priority_loop`, and the choice of the executor.
pub mod Order
pub mod Bands
use krio.Base.{
  ℕ, zero, suc, ◌+◌, ◌-◌, ◌^◌, ◌==◌, ltb, Bool, true, false, ◌&&◌, ◌||◌, Option, none, some, List,
  [], ◌∷◌, ◌++◌, map, get_elem?, length, if◌then◌else◌,
}
use krio.Stackless.{Coroutine, Region}
use krio.Stackless.Body.{
  ℤ, pos, negsuc, Body, Hooks, new_block, new_state_local, new_bool_local, emit_assign_i64,
  emit_eq_check_i64, set_goto, set_branch, set_switch, ids_from,
}
use krio.Stackless.Emit.{Machine, done_state, poll_blocked}
use krio.Stackless.Executor.{region_exit, stuck_block, finish_region, build_cooperative_loop}

abbrev pub or_max : Option ℕ → ℕ
or_max none = 2 ^ 32 - 1
or_max (some p) = p

-- `==` on priorities.
abbrev pub same_priority : Option ℕ → Option ℕ → Bool
same_priority none none = true
same_priority none (some q) = false
same_priority (some p) none = false
same_priority (some p) (some q) = p == q

abbrev pub priority_of : Option (Coroutine ℕ) → Option ℕ
priority_of none = none
priority_of (some k) = k.priority

module _ (coroutines : List (Coroutine ℕ)) where
  abbrev pub priority_at : ℕ → Option ℕ
  priority_at i = priority_of (get_elem? coroutines i)

  -- The order of the sort's keys.
  abbrev pub key_lt : ℕ → ℕ → Bool
  key_lt i j =
      ltb (or_max (priority_at i)) (or_max (priority_at j))
      || (or_max (priority_at i) == or_max (priority_at j)) && ltb i j

  unfoldable pub insert_index : ℕ → List ℕ → List ℕ
  insert_index i [] = i ∷ []
  insert_index i (j ∷ order) = if key_lt j i then j ∷ insert_index i order else i ∷ j ∷ order

  -- `sort_by_key`.
  unfoldable pub sort_indices : List ℕ → List ℕ
  unfolding insert_index
  sort_indices [] = []
  sort_indices (i ∷ order) = insert_index i (sort_indices order)

  -- A member joins the last band or opens one; a band is its first member and the others.
  unfoldable pub push_band : List (ℕ × List ℕ) → ℕ → List (ℕ × List ℕ)
  push_band [] i = (i, []) ∷ []
  push_band ((first, rest) ∷ []) i =
      if same_priority (priority_at first) (priority_at i)
      then (first, rest ++ i ∷ []) ∷ []
      else (first, rest) ∷ (i, []) ∷ []
  push_band (band ∷ next ∷ bands) i = band ∷ push_band (next ∷ bands) i

  unfoldable pub push_bands : List (ℕ × List ℕ) → List ℕ → List (ℕ × List ℕ)
  unfolding push_band
  push_bands bands [] = bands
  push_bands bands (i ∷ order) = push_bands (push_band bands i) order

  unfoldable pub bands_of : ℕ → List (List ℕ)
  unfolding sort_indices push_bands
  bands_of n = map (λ (first, rest). first ∷ rest) (push_bands [] (sort_indices (ids_from 0 n)))

-- `firsts[b][k]`; an index that is out of range would panic.
abbrev pub or_zero : Option ℕ → ℕ
or_zero none = 0
or_zero (some i) = i

abbrev pub or_empty : Option (List ℕ) → List ℕ
or_empty none = []
or_empty (some is) = is

abbrev pub site : List (List ℕ) → ℕ → ℕ → ℕ
site sites b k = or_zero (get_elem? (or_empty (get_elem? sites b)) k)

-- The arms of a scan's switch: the values from `k`, `left` of them, to one block.
unfoldable pub later : ℕ → ℕ → ℕ → List (ℤ × ℕ)
later k zero bb = []
later k (suc left) bb = (pos k, bb) ∷ later (k + 1) left bb

-- The locals and the sites of the scan.
pub record Scan : Type 0 where
  pub top_bb : ℕ
  pub check_done_bb : ℕ
  pub lasts : List ℕ
  pub sweeps : List ℕ
  pub firsts : List (List ℕ)
  pub seconds : List (List ℕ)

-- Where the scan goes on from a member of a band with `n` members.
abbrev pub next_first : Scan → ℕ → ℕ → ℕ → ℕ
next_first s b n k = if ltb (k + 1) n then site s.firsts b (k + 1) else site s.seconds b 0

abbrev pub next_band : Scan → ℕ → ℕ
next_band s b = elim (get_elem? s.firsts (b + 1)) [
  | none ↦ s.check_done_bb
  | some first ↦ or_zero (get_elem? first 0)
]

abbrev pub next_second : Scan → ℕ → ℕ → ℕ → ℕ
next_second s b n k = if ltb (k + 1) n then site s.seconds b (k + 1) else next_band s b

module _ {ℓ} {U : Type ℓ} where
  -- A fresh state local for every band.
  unfoldable pub new_state_locals : Body U → List (List ℕ) → Body U × List ℕ
  new_state_locals c [] = (c, [])
  new_state_locals c (band ∷ bands) =
      let (c, l) = new_state_local c in
      let (c, locals) = new_state_locals c bands in (c, l ∷ locals)

  -- A fresh block for every member of every band.
  unfoldable pub new_blocks : Body U → List ℕ → Body U × List ℕ
  new_blocks c [] = (c, [])
  new_blocks c (m ∷ band) =
      let (c, bb) = new_block c in let (c, blocks) = new_blocks c band in (c, bb ∷ blocks)

  unfoldable pub new_sites : Body U → List (List ℕ) → Body U × List (List ℕ)
  unfolding new_blocks
  new_sites c [] = (c, [])
  new_sites c (band ∷ bands) =
      let (c, blocks) = new_blocks c band in
      let (c, sites) = new_sites c bands in (c, blocks ∷ sites)

  unfoldable pub init_lasts : Body U → ℕ → List ℕ → Body U
  init_lasts c init_bb [] = c
  init_lasts c init_bb (last ∷ lasts) =
      init_lasts (emit_assign_i64 c init_bb last (negsuc 0)) init_bb lasts

  -- A turn of the loop over `poll_first` and `poll_second`.
  unfoldable pub poll_site : Body U → Machine → ℕ → ℕ → ℤ → ℕ → Body U
  poll_site c m sweep_local poll sweep next =
      let c = emit_assign_i64 c poll sweep_local sweep in
      let (c, done) = new_bool_local c in
      let c = emit_eq_check_i64 c poll done m.state_local done_state in
      set_branch c poll done next m.dispatch_bb

  -- The body of the loop over a band's members: member `k` of the `n` of band `b`.
  unfoldable pub scan_member : Body U → Scan → ℕ → ℕ → ℕ → Machine → Body U
  unfolding later poll_site
  scan_member c s b n k m =
      let last = or_zero (get_elem? s.lasts b) in
      let sweep = or_zero (get_elem? s.sweeps b) in
      let (c, poll_first) = new_block c in
      let (c, poll_second) = new_block c in
      let c =
        set_switch c (site s.firsts b k) last (later k (n - k) (next_first s b n k)) poll_first in
      let c =
        set_switch c (site s.seconds b k) last (later k (n - k) poll_second)
          (next_second s b n k) in
      let c = poll_site c m sweep poll_first (pos 0) (next_first s b n k) in
      let c = poll_site c m sweep poll_second (pos 1) (next_second s b n k) in
      let (c, after) = new_block c in
      let c = set_goto c m.exit_bb after in
      let (c, blocked) = new_bool_local c in
      let c = emit_eq_check_i64 c after blocked m.poll_result_local poll_blocked in
      let (c, ran) = new_block c in
      let (c, pass_on) = new_block c in
      let c = set_branch c after blocked pass_on ran in
      let c = emit_assign_i64 c ran last (pos k) in
      let c = set_goto c ran s.top_bb in
      set_switch c pass_on sweep ((pos 0, next_first s b n k) ∷ []) (next_second s b n k)

  -- `&machines[m]`, which would panic out of range.
  unfoldable pub scan_found : Body U → Scan → ℕ → ℕ → ℕ → Option Machine → Body U
  unfolding scan_member
  scan_found c s b n k none = c
  scan_found c s b n k (some m) = scan_member c s b n k m

  unfoldable pub scan_band : Body U → Scan → List Machine → ℕ → ℕ → ℕ → List ℕ → Body U
  unfolding scan_found
  scan_band c s machines b n k [] = c
  scan_band c s machines b n k (m ∷ band) =
      scan_band (scan_found c s b n k (get_elem? machines m)) s machines b n (k + 1) band

  unfoldable pub scan_bands : Body U → Scan → List Machine → ℕ → List (List ℕ) → Body U
  unfolding scan_band
  scan_bands c s machines b [] = c
  scan_bands c s machines b (band ∷ bands) =
      scan_bands (scan_band c s machines b (length band) 0 band) s machines (b + 1) bands

  -- The chain of the checks that every machine is done, with its last block.
  unfoldable pub check_machines : Body U → ℕ → ℕ → List Machine → Body U × ℕ
  check_machines c no_progress_bb check_bb [] = (c, check_bb)
  check_machines c no_progress_bb check_bb (m ∷ machines) =
      let (c, done) = new_bool_local c in
      let c = emit_eq_check_i64 c check_bb done m.state_local done_state in
      let (c, next) = new_block c in
      let c = set_branch c check_bb done next no_progress_bb in
      check_machines c no_progress_bb next machines

  -- `build_priority_loop`; without a machine the code panics.
  unfoldable pub build_priority_loop : Hooks U → Body U → Region ℕ → List Machine → Body U
  unfolding region_exit bands_of new_state_locals new_sites init_lasts scan_bands check_machines
      stuck_block finish_region
  build_priority_loop hooks c r [] = c
  build_priority_loop hooks c r (m ∷ machines) =
      let (c, region_exit_bb) = region_exit c r in
      let bands = bands_of r.coroutines (length (m ∷ machines)) in
      let (c, init_bb) = new_block c in
      let (c, top_bb) = new_block c in
      let (c, check_done_bb) = new_block c in
      let (c, lasts) = new_state_locals c bands in
      let (c, sweeps) = new_state_locals c bands in
      let c = init_lasts c init_bb lasts in
      let c = set_goto c init_bb top_bb in
      let progress = m.progress_local in
      let c = emit_assign_i64 c top_bb progress (pos 0) in
      let (c, firsts) = new_sites c bands in
      let (c, seconds) = new_sites c bands in
      let c = set_goto c top_bb (site firsts 0 0) in
      let s : Scan = record {
        top_bb = top_bb;
        check_done_bb = check_done_bb;
        lasts = lasts;
        sweeps = sweeps;
        firsts = firsts;
        seconds = seconds;
      } in
      let c = scan_bands c s (m ∷ machines) 0 bands in
      let (c, stuck_bb) = new_block c in
      let (c, no_progress_bb) = new_block c in
      let (c, progressed) = new_bool_local c in
      let c = emit_eq_check_i64 c no_progress_bb progressed progress (pos 1) in
      let c = set_branch c no_progress_bb progressed top_bb stuck_bb in
      let c = stuck_block hooks c stuck_bb top_bb in
      let (c, check_bb) = check_machines c no_progress_bb check_done_bb (m ∷ machines) in
      let c = set_goto c check_bb region_exit_bb in finish_region c r (m ∷ machines) init_bb

-- `is_some`.
abbrev pub is_some : Option ℕ → Bool
is_some none = false
is_some (some p) = true

unfoldable pub any_priority : List (Coroutine ℕ) → Bool
any_priority [] = false
any_priority (k ∷ coroutines) = is_some k.priority || any_priority coroutines

-- `finalize_region` of the cooperative executor.
unfoldable pub finalize_cooperative {ℓ} :
    {U : Type ℓ} → Hooks U → Body U → Region ℕ → List Machine → Body U
unfolding any_priority build_priority_loop build_cooperative_loop
finalize_cooperative hooks c r machines =
    if any_priority r.coroutines
    then build_priority_loop hooks c r machines
    else build_cooperative_loop hooks c r machines
