-- ===== src/GetFile/Client.antt =====
-- projects/gflib/gfclient.c: the request object, its accessors and `gfc_perform`. A `gfcrequest_t **`
-- is an option: `none` stands for a null pointer, or a pointer to one. The header callback that
-- `gfc_set_headerfunc` stores is never called, and is not part of the state.
pub mod Parse
pub mod Perform
pub mod Body
pub mod Download
use c_exercises.Base.{
  ℕ, zero, suc, ◌+◌, ◌-◌, Bool, true, false, ◌&&◌, ◌||◌, not, Option, none, some, List, [], ◌∷◌,
  ◌++◌, ◌==◌, ltb, leb, if◌then◌else◌, length, take, drop, set, same, ℤ, pos, negsuc, minus_one,
}
use c_exercises.Text.{codes, c_string, scan_word, scan_size}

-- `gfstatus_t` of gfclient.h.
pub data Status : Type 0 where
  ok file_not_found error invalid : Status

-- `struct gfcrequest_t`. `output` is what the write callback has been given so far, in order; it
-- grows only while a callback is set.
pub record Request : Type 0 where
  pub path : Option (List ℕ)
  pub server : Option (List ℕ)
  pub port : ℕ
  pub status : Status
  pub bytes_received : ℕ
  pub file_len : ℕ
  pub has_writefunc : Bool
  pub output : List ℕ

-- `calloc_ok` says whether the memory is there. Status 0 is `GF_OK`.
unfoldable pub gfc_create : Bool → Option Request
gfc_create calloc_ok =
    if calloc_ok
    then some (record {
      path = none;
      server = none;
      port = 0;
      status = ok;
      bytes_received = 0;
      file_len = 0;
      has_writefunc = false;
      output = [];
    })
    else none

-- The pointer after `gfc_cleanup`.
pub gfc_cleanup : Option Request → Option Request
gfc_cleanup none = none
gfc_cleanup (some r) = none

pub gfc_get_bytesreceived : Option Request → ℕ
gfc_get_bytesreceived none = 0
gfc_get_bytesreceived (some r) = r.bytes_received

unfoldable pub gfc_get_status : Option Request → Status
gfc_get_status none = invalid
gfc_get_status (some r) = r.status

pub gfc_get_filelen : Option Request → ℕ
gfc_get_filelen none = 0
gfc_get_filelen (some r) = r.file_len

unfoldable pub gfc_set_path : Option Request → Option (List ℕ) → Option Request
gfc_set_path none path = none
gfc_set_path (some r) path = some (record r { path = path })

unfoldable pub gfc_set_server : Option Request → Option (List ℕ) → Option Request
gfc_set_server none server = none
gfc_set_server (some r) server = some (record r { server = server })

unfoldable pub gfc_set_port : Option Request → ℕ → Option Request
gfc_set_port none port = none
gfc_set_port (some r) port = some (record r { port = port })

unfoldable pub gfc_set_writefunc : Option Request → Bool → Option Request
gfc_set_writefunc none is_set = none
gfc_set_writefunc (some r) is_set = some (record r { has_writefunc = is_set })

pub gfc_strstatus : Status → List ℕ
gfc_strstatus ok = codes "OK"
gfc_strstatus file_not_found = codes "FILE_NOT_FOUND"
gfc_strstatus invalid = codes "INVALID"
gfc_strstatus error = codes "ERROR"

-- What `sscanf(headerBuffer, "%15s %31s %zu", ...)` assigns: how many items, and their values.
pub record Scanned : Type 0 where
  pub count : ℕ
  pub one : List ℕ
  pub two : List ℕ
  pub file_length : ℕ

abbrev pub scanned : ℕ → List ℕ → List ℕ → ℕ → Scanned
scanned n a b v = record { count = n; one = a; two = b; file_length = v }

abbrev scan_length : List ℕ → List ℕ → Option ℕ → Scanned
scan_length a b none = scanned 2 a b 0
scan_length a b (some v) = scanned 3 a b v

abbrev scan_second : List ℕ → Option (List ℕ × List ℕ) → Scanned
scan_second a none = scanned 1 a [] 0
scan_second a (some (b, rest)) = scan_length a b (scan_size rest)

abbrev scan_first : Option (List ℕ × List ℕ) → Scanned
scan_first none = scanned 0 [] [] 0
scan_first (some (a, rest)) = scan_second a (scan_word 31 rest)

pub scan_response : List ℕ → Scanned
scan_response s = scan_first (scan_word 15 s)

-- What the response says: not a header (`gfc_perform` returns -1), a file of a known length, or a
-- status with which `gfc_perform` returns 0 at once.
pub data Verdict : Type 0 where
  malformed : Verdict
  file : ℕ → Verdict
  refused : Status → Verdict

pub judge : Scanned → Verdict
judge s =
    if ltb s.count 2 || not (same s.one (codes "GETFILE"))
    then malformed
    else if same s.two (codes "OK")
    then (if s.count == 3 then file s.file_length else malformed)
    else if same s.two (codes "FILE_NOT_FOUND")
    then refused file_not_found
    else if same s.two (codes "ERROR")
    then refused error
    else refused invalid

-- `headerBuffer[headerLen] = '\0'`. The list is the part of the buffer that has been received, so at
-- its end the write is behind it.
abbrev pub cut : List ℕ → ℕ → List ℕ
cut buf header_len = set buf header_len 0

unfoldable pub parse_response : List ℕ → ℕ → Verdict
unfolding scan_response judge
parse_response buf header_end =
    if leb 1024 header_end
    then malformed
    else judge (scan_response (c_string (take header_end buf)))
