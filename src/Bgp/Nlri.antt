-- ===== src/Bgp/Nlri.antt =====
-- `NLRIMessageType` of pkg/bgp/mp-nlri.go.
use gobmp.Prelude.{ℕ, ◌&&◌, ◌==◌, if◌then◌else◌}

abbrev pub bgp_ls : ℕ
bgp_ls = 16388

-- The code of an address family; 0 if it is unknown.
unfoldable pub nlri_message_type : ℕ → ℕ → ℕ
nlri_message_type afi safi =
    if afi == bgp_ls && safi == 71
    then 71
    else if afi == 1 && safi == 1
    then 1
    else if afi == 2 && safi == 1
    then 2
    else if afi == 1 && safi == 4
    then 16
    else if afi == 2 && safi == 4
    then 17
    else if afi == 1 && safi == 128
    then 18
    else if afi == 2 && safi == 128
    then 19
    else if afi == 25 && safi == 65
    then 23
    else if afi == 25 && safi == 70
    then 24
    else if afi == 1 && safi == 73
    then 25
    else if afi == 2 && safi == 73
    then 26
    else if afi == 1 && safi == 133
    then 27
    else if afi == 2 && safi == 133
    then 27
    else if afi == 1 && safi == 134
    then 27
    else if afi == 2 && safi == 134
    then 27
    else 0
