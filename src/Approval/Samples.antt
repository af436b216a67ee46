-- ===== src/Approval/Samples.antt =====
-- A policy for one action type of one firm.
use tmis.Prelude.{String, ◌≡◌, true, ◌&&◌, [], if◌then◌else◌, ◌==◌, nat_eq, string_eq, key_eq}
use tmis.Approval.{configure, requires_approval, requires_approval-configure}

abbrev firm : String
firm = "f"

abbrev mailing : String
mailing = "mail"

requires_approval-configure_example :
    requires_approval (configure [] firm mailing true).1 firm "print"
    ≡ (if firm == firm && mailing == "print" then true else requires_approval [] firm "print")
requires_approval-configure_example = requires_approval-configure [] firm mailing firm "print" true
