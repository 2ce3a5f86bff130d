-- ===== src/Tests/Sources.antt =====
-- What is read of /proc, and the address of the notification.
use capstone_monitor.Base.{
  ℕ, ◌≡◌, ◌≢◌, refl, some, List, [], ◌∷◌, ◌++◌, replicate, codes, leading, arith,
}
use capstone_monitor.Monitor.Notify.{address}
use capstone_monitor.Monitor.Notify.Sent.{abstract_name, address-abstract}
use capstone_monitor.Monitor.Sources.{read_proc_comm, strip_newline}
use capstone_monitor.ProcScanner.Status.{read_proc_uid, after_prefix}
use capstone_monitor.ProcScanner.Status.Found.{
  IsOther, no_more, and_other, lines, uid_line, read_proc_uid-lines,
}

abbrev name_line : List ℕ
name_line = codes "Name:" ++ 9 ∷ codes "Uid: 7"

name_line-IsOther : IsOther name_line
unfolding after_prefix
name_line-IsOther = record { one_line = refl; short = omega arith; other = refl }

-- A name cannot be taken for the line of the user.
read_proc_uid-lines_example :
    read_proc_uid (some (lines (name_line ∷ []) (uid_line (codes "1000") 9 (codes "1000"))))
    ≡ some 1000
unfolding leading
read_proc_uid-lines_example =
    read_proc_uid-lines (name_line ∷ []) b'1' (codes "000") 9 (codes "1000")
      (and_other name_line [] name_line-IsOther no_more) refl (omega arith) refl (omega arith)

-- a name of 16 bytes, behind which the newline does not fit any more
comm : read_proc_comm 17 (some (codes "kworker/u16:3-ev" ++ 10 ∷ [])) ≡ codes "kworker/u16:3-ev"
unfolding read_proc_comm strip_newline
comm = refl

-- The path of systemd's abstract socket has 93 NUL bytes behind it.
address-abstract_example :
    (abstract_name (address (codes "@systemd/notify")) ≡ codes "systemd/notify" ++ replicate 93 0)
    × (abstract_name (address (codes "@systemd/notify")) ≢ codes "systemd/notify")
address-abstract_example = address-abstract (codes "systemd/notify") refl
