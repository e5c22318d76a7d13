-- ===== src/Registration/Kept.antt =====
-- A registration from its first request to its last.
use sipgox.Text.{Text, codes}
use sipgox.Sip.{Sip}
use sipgox.Registration.{unregistering}

module _ (sip : Sip) where
  open sip use {Request, transmitted, remove_header}

  -- The request that unregisters.
  abbrev pub last_request : Request → Request
  last_request origin = transmitted (remove_header (codes "Via") (unregistering sip origin))
