-- ===== src/Scan/ManualTasks.antt =====
-- What `scan_manual` starts.
use bopm.Prelude.{
  ℕ, ◌+◌, ◌≤◌, ◌<◌, ◌≡◌, ◌∙◌, inl, inr, Bool, true, false, ◌&&◌, Option, none, some, List, [], ◌∷◌,
  arith, ◌==◌, if◌then◌else◌, Bool-cases, Bytes, length,
}
use bopm.Config.{ChannelConf}
use bopm.Event.{Event}
use bopm.Scan.Setup.{ScanStruct, ScannerStruct, Setup}
use bopm.Scan.Connect.{OpmReply, opm_success, no_protocols, bad_addr, other_code, Outside}
use bopm.Scan.Tasks.{
  all_queries, is_success, more_tasks, more_tasks-eq, no_more, twice_more, increase-more,
  dnsbl_add-more,
}
use bopm.Scan.Manual.{
  is_wanted, manual_reply, manual_scanners, manual_create, abort_if_idle, manual_tasks,
  ip_and_scanner, scan_manual,
}

-- The scanners with the wanted name that libopm takes.
abbrev pub wanted :
    (Bytes → Bytes → OpmReply) → Option Bytes → (ip : Bytes) → List ScannerStruct → ℕ
wanted opm_scan scannername ip [] = 0
wanted opm_scan scannername ip (scs ∷ rest) =
    (if is_wanted scannername scs.name && is_success (opm_scan scs.name ip) then 1 else 0)
    + wanted opm_scan scannername ip rest

manual_reply-more :
    (reply : OpmReply) (target : ChannelConf) (scs : ScannerStruct) (ss : ScanStruct)
    → ss.scans + 1 < 65536
    → (manual_reply reply target scs ss).0 ≡ more_tasks ss (if is_success reply then 1 else 0)
unfolding manual_reply
manual_reply-more opm_success target scs ss h = increase-more ss h
manual_reply-more no_protocols target scs ss h = no_more ss
manual_reply-more bad_addr target scs ss h = no_more ss
manual_reply-more other_code target scs ss h = no_more ss

one-le : (b : Bool) → (if b then 1 else 0) ≤ 1
one-le true = omega arith
one-le false = omega arith

manual_scanners-more :
    (opm_scan : Bytes → Bytes → OpmReply) (scannername : Option Bytes) (target : ChannelConf)
    (scanners : List ScannerStruct) (ss : ScanStruct)
    → ss.scans + length scanners < 65536
    → (manual_scanners opm_scan scannername target scanners ss).0
      ≡ more_tasks ss (wanted opm_scan scannername ss.ip scanners)
unfolding manual_scanners
manual_scanners-more opm_scan scannername target [] ss h = no_more ss
manual_scanners-more opm_scan scannername target (scs ∷ rest) ss h =
    elim (Bool-cases (is_wanted scannername scs.name)) [
      | inl want ↦
          let taken : ℕ = if is_success (opm_scan scs.name ss.ip) then 1 else 0 in
          rw (want, manual_reply-more (opm_scan scs.name ss.ip) target scs ss (omega arith))
            (manual_scanners-more opm_scan scannername target rest (more_tasks ss taken)
                (omega (arith, one-le (is_success (opm_scan scs.name ss.ip))))
              ∙ twice_more ss taken (wanted opm_scan scannername ss.ip rest))
      | inr skip ↦ rw skip (
          manual_scanners-more opm_scan scannername target rest ss (omega arith)
          ∙ more_tasks-eq ss _ _ (omega arith))
    ]

manual_tasks-more :
    (o : Outside) (setup : Setup) (target : ChannelConf) (scannername : Option Bytes)
    (ss : ScanStruct)
    → ss.scans
        + all_queries o.resolver (o.resolver.inet_aton ss.ip) setup.opm.blacklists
        + length setup.scanners
      < 65536
    → (manual_tasks o setup target scannername ss).0
      ≡ more_tasks ss (
          all_queries o.resolver (o.resolver.inet_aton ss.ip) setup.opm.blacklists
          + wanted o.opm_scan scannername ss.ip setup.scanners)
unfolding manual_tasks
manual_tasks-more o setup target scannername ss h =
    let asked = all_queries o.resolver (o.resolver.inet_aton ss.ip) setup.opm.blacklists in
    rw (dnsbl_add-more o.resolver setup ss (omega arith)) (
      manual_scanners-more o.opm_scan scannername target setup.scanners (more_tasks ss asked)
        (omega arith)
      ∙ twice_more ss asked (wanted o.opm_scan scannername ss.ip setup.scanners))

-- A manual scan of a host that is resolved counts the queries that the resolver took and the
-- scanners that libopm took, of those with the name behind the first space, or of all if there is
-- none; it keeps the channel as its target; and where the count is 0 it is freed at once. The
-- blacklists and scanners are fewer than 65536 together, so that the count does not wrap.
pub scan_manual-tasks :
    (o : Outside) (setup : Setup) (resolve : Bytes → Option Bytes) (error_text param : Bytes)
    (target : ChannelConf) (address : Bytes)
    → resolve (ip_and_scanner param).0 ≡ some address
    → all_queries o.resolver (o.resolver.inet_aton address) setup.opm.blacklists
        + length setup.scanners
      < 65536
    → (scan_manual o setup resolve error_text (some param) target).0 ≡ (
        let n =
          all_queries o.resolver (o.resolver.inet_aton address) setup.opm.blacklists
          + wanted o.opm_scan (ip_and_scanner param).1 address setup.scanners in
        if n == 0 then none else some (more_tasks (manual_create address target) n))
unfolding scan_manual
scan_manual-tasks o setup resolve error_text param target address e h = rw e (
    aborted_or_more
      (manual_tasks o setup target (ip_and_scanner param).1 (manual_create address target)) _
      (manual_tasks-more o setup target (ip_and_scanner param).1 (manual_create address target)
        (omega arith)))
  where
    aborted_or_more :
        (r : ScanStruct × List Event) (n : ℕ)
        → r.0 ≡ more_tasks (manual_create address target) n
        → (abort_if_idle target (ip_and_scanner param).1 r).0
          ≡ (if n == 0 then none else some (more_tasks (manual_create address target) n))
    aborted_or_more (ss, events) n same = rw same (ground arith)
