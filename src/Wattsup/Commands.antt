-- ===== src/Wattsup/Commands.antt =====
-- The commands of wattsup/wattsup.c: each sends a request, and most read the reply.
use uarch_configure.Common.{ℕ, Bool, true, false, not, ◌||◌, if◌then◌else◌, List, [], ◌∷◌}
use uarch_configure.Common.Text.{Text}
use uarch_configure.Wattsup.{Packet, Code, success}
use uarch_configure.Wattsup.Device.{M, ◌>>=◌, ◌>>◌, return, print_packet, wu_write, wu_read}

-- A packet as an initialiser sets it up; the fields that it does not name are zero.
abbrev pub packet : ℕ → ℕ → List Text → ℕ → Packet
packet cmd sub_cmd field count = record {
  cmd = cmd;
  sub_cmd = sub_cmd;
  count = count;
  buf = [];
  len = 0;
  field = field;
}

-- `if (ret)`
abbrev pub failed : Code → Bool
failed success = false
failed _ = true

-- The common body of the `wu_show_` functions: send the request, read the reply, print it.
unfoldable pub request : ℕ → M Code
request cmd = do
  (ret, p) ← wu_write (packet cmd b'R' [] 0)
  if failed ret then return ret else do
    (ret', p') ← wu_read p
    if failed ret' then return ret' else do print_packet p'; return success

unfoldable pub wu_show_header : M Code
unfolding request
wu_show_header = request b'H'

unfoldable pub wu_show_cal : M Code
unfolding request
wu_show_cal = request b'F'

unfoldable pub wu_show_interval : M Code
unfolding request
wu_show_interval = request b'S'

unfoldable pub wu_show_user : M Code
unfolding request
wu_show_user = request b'U'

-- The reply goes to the debugging output only.
unfoldable pub wu_show_mode : M Code
wu_show_mode = do
  (ret, p) ← wu_write (packet b'M' b'R' [] 0)
  if failed ret then return ret else do (ret', _) ← wu_read p; return ret'

abbrev pub start_fields : List Text
start_fields = (b'E' ∷ []) ∷ (b'1' ∷ []) ∷ (b'1' ∷ []) ∷ []

unfoldable pub wu_start_log : M Code
wu_start_log = do (ret, _) ← wu_write (packet b'L' b'W' start_fields 3); return ret

unfoldable pub wu_stop_log : Bool → M Code
wu_stop_log wu_final = do
  (ret, p) ← wu_write (packet b'L' b'R' [] 0)
  if failed ret then return ret else do
    (ret', p') ← wu_read p
    if failed ret' || not wu_final then return ret' else do print_packet p'; return ret'

-- The reply is read and dropped.
unfoldable pub wu_clear : M Code
wu_clear = do (ret, p) ← wu_write (packet b'R' b'W' [] 0); wu_read p; return ret
