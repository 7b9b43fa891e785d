-- ===== src/Reporter/State.antt =====
-- The fields of Reporter in src/reporter.cc and the handlers of its events: onLine of the file
-- parser, onAddressHit of the collector. A handler returns `none` where the source would follow a
-- dangling pointer or an invalidated iterator.
use kcov.Prelude.{
  ℕ, ◌+◌, ◌%◌, ◌^◌, Bool, true, false, ◌||◌, Option, none, some, List, [], ◌∷◌, ◌++◌, map, Bytes,
  eqb, if◌then◌else◌, number_key, name_key, length, get_elem?, set, ◌>>=◌,
}
use kcov.Prelude.Table.{Table, find, insert, find_or}
use kcov.Filter.LineHandler.{LineHandler, match}
use kcov.Reporter.Line
use kcov.Reporter.Line.{Line}
use kcov.Reporter.File
use kcov.Reporter.File.{File, Heap}
use kcov.Reporter.Env.{Env, single_shot}

pub record PendingFileAddress : Type 0 where
  pub index : ℕ
  pub hits : ℕ

-- A call of a registered IReporter::IListener.
pub data Call : Type 0 where
  on_address : ℕ → ℕ → Call
  on_line_reporter : Bytes → ℕ → ℕ → Call

-- `heap` holds every Line object; `line_handler` is the state of the filter's line handler;
-- `calls` are the calls made so far, each with the listener that it was made on.
pub record Reporter : Type 0 where
  pub heap : Heap
  pub files : Table Bytes File
  pub addr_to_line : Table ℕ (List ℕ)
  pub pending_files : Table ℕ (List PendingFileAddress)
  pub line_id_to_line : Table ℕ ℕ
  pub unmarshalling_done : Bool
  pub order : ℕ
  pub line_handler : LineHandler
  pub listeners : List ℕ
  pub calls : List (ℕ × Call)

abbrev pub new_reporter : LineHandler → Reporter
new_reporter handler = record {
  heap = [];
  files = [];
  addr_to_line = [];
  pending_files = [];
  line_id_to_line = [];
  unmarshalling_done = false;
  order = 1;
  line_handler = handler;
  listeners = [];
  calls = [];
}

unfoldable pub register_listener : Reporter → ℕ → Reporter
register_listener r listener = record r { listeners = r.listeners ++ listener ∷ [] }

abbrev pub notify : Reporter → Call → Reporter
notify r c = record r { calls = r.calls ++ map (λ listener. (listener, c)) r.listeners }

unfoldable pub report_address : Reporter → ℕ → ℕ → Reporter
report_address r line_hash hits = notify r (on_address line_hash hits)

-- Setup the hit order of a line that has none.
abbrev pub set_order : ℕ → Line → Line
set_order order l = if eqb l.order 0 then record l { order = order } else l

abbrev pub next_order : ℕ → Line → ℕ
next_order order l = if eqb l.order 0 then (order + 1) % 2 ^ 64 else order

-- The state with `l`, the line at `p` with its hit registered.
abbrev pub with_hit : Reporter → ℕ → Line → ℕ → Reporter
with_hit r p l hits =
    report_address
      (record r { heap = set r.heap p (set_order r.order l); order = next_order r.order l })
      l.line_id hits

-- One round of the loop of onAddressHit.
unfoldable pub hit_line : Env → ℕ → ℕ → Reporter → ℕ → Option Reporter
hit_line env addr hits r p = do
  l ← get_elem? r.heap p
  l' ← Line.register_hit l addr hits (single_shot env)
  some (with_hit r p l' hits)

unfoldable pub hit_lines : Env → ℕ → ℕ → Reporter → List ℕ → Option Reporter
hit_lines env addr hits r [] = some r
hit_lines env addr hits r (p ∷ ps) = do
  r' ← hit_line env addr hits r p
  hit_lines env addr hits r' ps

abbrev hit_found : Env → ℕ → ℕ → Reporter → Option (List ℕ) → Option Reporter
hit_found env addr hits r none = some r
hit_found env addr hits r (some lines) = hit_lines env addr hits r lines

unfoldable pub on_address_hit : Env → Reporter → ℕ → ℕ → Option Reporter
on_address_hit env r addr hits = hit_found env addr hits r (find addr r.addr_to_line)

-- The hash of a new file: of its name, or of its content, 0 if that cannot be read.
abbrev content_hash : Env → Option Bytes → ℕ
content_hash env none = 0
content_hash env (some content) = env.hash_block content

abbrev pub file_hash_of : Env → Bytes → ℕ
file_hash_of env file =
    if env.hash_filename then env.string_hash file else content_hash env (env.read_file file)

-- The loop over the source lines of a new file, from line `nr` on: each line that the filter
-- leaves out gets an unreachable Line. (`line_nr`, the line of the event, is what the source
-- passes to the filter.)
unfoldable pub mark_unreachable :
    Bytes → ℕ → ℕ → List Bytes → Heap × File × LineHandler → Heap × File × LineHandler
mark_unreachable file line_nr nr [] s = s
mark_unreachable file line_nr nr (text ∷ texts) (heap, fp, handler) =
    let (handler', kept) = match handler file line_nr text in
    mark_unreachable file line_nr (nr + 1) texts (
      if kept then (heap, fp, handler') else (
        heap ++ Line.new_line fp.file_hash nr true ∷ [],
        File.add_line fp nr (length heap) true,
        handler',
      ))

unfoldable pub create_file : Env → Bytes → ℕ → Reporter → Reporter × File
create_file env file line_nr r =
    let (heap, fp, handler) =
      mark_unreachable file line_nr 1 (env.get_lines file)
        (r.heap, File.new_file (file_hash_of env file), r.line_handler) in
    (record r { heap = heap; line_handler = handler; files = insert file fp r.files }, fp)

abbrev pub found_file : Env → Bytes → ℕ → Reporter → Option File → Reporter × File
found_file env file line_nr r none = create_file env file line_nr r
found_file env file line_nr r (some fp) = (r, fp)

-- The line of the event, created where the file has none there.
abbrev pub found_line : Bytes → ℕ → Reporter → File → Option ℕ → Reporter × ℕ
found_line file line_nr r fp none =
    let p = length r.heap in
    (
      record r {
        heap = r.heap ++ Line.new_line fp.file_hash line_nr false ∷ [];
        files = insert file (File.add_line fp line_nr p false) r.files;
      },
      p,
    )
found_line file line_nr r fp (some p) = (r, p)

-- Is the line, by its id, already at the address?
unfoldable pub is_dup : Heap → ℕ → List ℕ → Option Bool
is_dup heap line_id [] = some false
is_dup heap line_id (p ∷ ps) = do
  l ← get_elem? heap p
  rest ← is_dup heap line_id ps
  some (eqb line_id l.line_id || rest)

-- The loop over the pending hits of a line.
unfoldable pub apply_pending : Env → ℕ → ℕ → Reporter → List PendingFileAddress → Option Reporter
apply_pending env line_id p r [] = some r
apply_pending env line_id p r (pend ∷ rest) = do
  let r₁ = report_address r line_id pend.hits
  l ← get_elem? r₁.heap p
  let l' = Line.register_hit_index l pend.index pend.hits (single_shot env)
  apply_pending env line_id p (record r₁ { heap = set r₁.heap p l' }) rest

abbrev pub handle_pending :
    Env → ℕ → ℕ → Reporter → Option (List PendingFileAddress) → Option Reporter
handle_pending env line_id p r none = some r
handle_pending env line_id p r (some pending) = do
  r' ← apply_pending env line_id p r pending
  some (record r' { pending_files = insert line_id [] r'.pending_files })

-- What onLine does with its line `p`.
unfoldable pub attach_address : Env → Reporter → ℕ → ℕ → Option (Reporter × ℕ)
attach_address env r p addr = do
  l ← get_elem? r.heap p
  let r₁ = record r { heap = set r.heap p (Line.add_address l addr) }
  let lines = find_or [] addr r₁.addr_to_line
  dup ← is_dup r₁.heap l.line_id lines
  let lines' = (if dup then lines else lines ++ p ∷ [])
  let r₂ = record r₁ {
    addr_to_line = insert addr lines' r₁.addr_to_line;
    line_id_to_line = insert l.line_id p r₁.line_id_to_line;
  }
  r₃ ← handle_pending env l.line_id p r₂ (find l.line_id r₂.pending_files)
  some (r₃, l.line_id)

unfoldable pub on_line : Env → Reporter → Bytes → ℕ → ℕ → Option Reporter
on_line env r file line_nr addr =
    if env.run_filters file
    then (do
      let (r₁, fp) = found_file env file line_nr r (find file r.files)
      let (r₂, p) = found_line file line_nr r₁ fp (File.get_line fp line_nr)
      (r₃, line_id) ← attach_address env r₂ p addr
      some (notify r₃ (on_line_reporter file line_nr line_id)))
    else some r
