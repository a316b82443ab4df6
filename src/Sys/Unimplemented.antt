-- ===== src/Sys/Unimplemented.antt =====
-- kernel/sys.c: the system calls that are not implemented, and `times`.
use linux_0_11_comments.Kernel.{current_task, Kernel}
use linux_0_11_comments.Common.{if◌then◌else◌, ℤ, negsuc, Bool, Option, none, some}

abbrev pub enosys : ℤ
enosys = negsuc 37

abbrev pub sys_ftime : ℤ
sys_ftime = enosys

abbrev pub sys_break : ℤ
sys_break = enosys

abbrev pub sys_ptrace : ℤ
sys_ptrace = enosys

abbrev pub sys_stty : ℤ
sys_stty = enosys

abbrev pub sys_gtty : ℤ
sys_gtty = enosys

abbrev pub sys_rename : ℤ
sys_rename = enosys

abbrev pub sys_prof : ℤ
sys_prof = enosys

abbrev pub sys_acct : ℤ
sys_acct = enosys

abbrev pub sys_phys : ℤ
sys_phys = enosys

abbrev pub sys_lock : ℤ
sys_lock = enosys

abbrev pub sys_mpx : ℤ
sys_mpx = enosys

abbrev pub sys_ulimit : ℤ
sys_ulimit = enosys

-- struct tms
pub record Tms : Type 0 where
  pub tms_utime : ℤ
  pub tms_stime : ℤ
  pub tms_cutime : ℤ
  pub tms_cstime : ℤ

-- The return value, and what is stored through `tbuf`, if that is not NULL.
unfoldable pub sys_times : Bool → Kernel → ℤ × Option Tms
sys_times given k =
    let me = current_task k in
    (
      k.jiffies,
      if given
          then some (record {
            tms_utime = me.utime;
            tms_stime = me.stime;
            tms_cutime = me.cutime;
            tms_cstime = me.cstime;
          })
          else none,
    )
