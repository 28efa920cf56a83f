-- ===== src/Netplay/Reads.antt =====
-- `MyIOS_IoctlAsync`: which reads of the disc are held back, and what is done with them.
pub mod Sector
use netslugplus.Base.{
  ℕ, zero, suc, ◌+◌, ◌-◌, ◌*◌, ◌/◌, ◌%◌, ◌^◌, Bool, true, false, not, ◌&&◌, ◌||◌, ◌==◌, leb, ltb,
  if◌then◌else◌, update, List, [], ◌∷◌, Option, none, some, length, take, drop, bytes_eq, codes,
}
use netslugplus.Netplay.Types.{
  IoctlManager, SendPacket, di_read, Machine, Outcome, done, wait, fault, ◌>>=◌,
}
use netslugplus.Netplay.Ioctl.{allocate, modify}

-- A node of the disc's file tree; `is_file` is `type == 0`.
pub record FstNode : Type 0 where
  pub is_file : Bool
  pub name : List ℕ
  pub file_offset : ℕ
  pub file_len : ℕ

-- The test of a node against an offset; the sum is a 32-bit one.
unfoldable pub holds : ℕ → FstNode → Bool
holds offset n =
    n.is_file && leb n.file_offset offset && ltb offset ((n.file_offset + n.file_len / 4) % 2 ^ 32)

-- The search of the tree, from node `i` on.
unfoldable pub find_file : ℕ → ℕ → List FstNode → Option (ℕ × FstNode)
unfolding holds
find_file offset i [] = none
find_file offset i (n ∷ ns) = if holds offset n then some (i, n) else find_file offset (i + 1) ns

-- `len > strlen(suffix) && strcmp(name + len - strlen(suffix), suffix) == 0`
unfoldable pub ends_with : List ℕ → List ℕ → Bool
ends_with suffix name =
    ltb (length suffix) (length name) && bytes_eq (drop (length name - length suffix) name) suffix

-- Of music and films only the start of the file is held back.
unfoldable pub is_stream : List ℕ → Bool
unfolding ends_with
is_stream name =
    (ends_with (codes ".brstm") name && not (bytes_eq (take 13 name) (codes "STRM_BGM_STAR")))
    || ends_with (codes ".thp") name

-- Whether a read of the disc at an offset is one to hold back, and the number of its file; 4095
-- stands for a read outside all files.
unfoldable pub classify : List FstNode → ℕ → Bool × ℕ
unfolding find_file is_stream
classify fst offset = elim (find_file offset 0 fst) [
  | none ↦ (true, 4095)
  | some (i, n) ↦ (if is_stream n.name then ltb (offset - n.file_offset) 0x10 else true, i)
]

-- The static variables of the function.
pub record ReadState : Type 0 where
  pub skip_count : ℕ
  pub file_access_counts : ℕ → ℕ

abbrev pub file_access_counts_size : ℕ
file_access_counts_size = 4096

-- The bound that is put on a file's number before it is used as an index.
unfoldable pub clamp_file_number : ℕ → ℕ
clamp_file_number n = if ltb file_access_counts_size n then file_access_counts_size - 1 else n

-- `(count << 12) | file_number`, for a number of at most 4096.
unfoldable pub sector_of : ℕ → ℕ → ℕ
sector_of count file_number =
    (if ltb file_number 4096 then count * 4096 + file_number else (count / 2 * 2 + 1) * 4096)
    % 2 ^ 32

-- The first 39 reads that could be held back are not; `none` says that the read is left alone.
unfoldable pub count_read : Bool × ℕ → ReadState → Outcome (Option ℕ × ReadState)
unfolding clamp_file_number sector_of
count_read (intercept, file) r =
    let skips = r.skip_count + 1 in
    let n = clamp_file_number file in
    let count = r.file_access_counts n + 1 in
    if not intercept
    then done (none, r)
    else if ltb skips 40
    then done (none, record r { skip_count = skips })
    else if ltb n file_access_counts_size
    then done (
      some (sector_of count n),
      record { skip_count = skips; file_access_counts = update r.file_access_counts n count },
    )
    else fault

-- The read is entered and issued; `failed` is `IoctlRet < 0`. A packet about it goes out unless
-- issuing it failed.
unfoldable pub issue_read : ℕ → ℕ → ℕ → Bool → Machine → Outcome (Option SendPacket × Machine)
issue_read sector user_data cb failed m = do
  (i, b) ← allocate sector m.ioctl_buffer
  let b' =
      modify i
        (λ e. record e {
          user_data = user_data;
          callback = cb;
          state = if failed then 0 else e.state;
        })
        b
  done (
    if failed
        then none
        else some (record { client_number = if m.host then 0 else 1; payload = di_read sector }),
    record m { ioctl_buffer = b' },
  )
