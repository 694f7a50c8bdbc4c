-- ===== src/Address/Texts.antt =====
-- The text of an address, and what splitting it gives.
use raptor_lite.Common.{Bool, if◌then◌else◌}
use raptor_lite.Address.{ResolvedAddress, normalized}

-- The address whose text is taken.
abbrev pub shown : Bool → ResolvedAddress → ResolvedAddress
shown normalize r = if normalize then normalized r else r
