-- ===== src/Node/Action.antt =====
-- ipmb-js/src/lib.rs: what the receiving thread hands to the thread of the callers, and what a
-- promise comes to.
use ipmb.Errors.{RecvError, Result}
use ipmb.Message.{Message, BytesMessage}

abbrev pub Received : Type 0
Received = Result (Message BytesMessage) RecvError

-- The errors that a promise is rejected with.
pub data Reason : Type 0 where
  timeout closed : Reason
  from_endpoint : RecvError → Reason

abbrev pub Outcome : Type 0
Outcome = Result (Message BytesMessage) Reason

pub data DelegateAction : Type 0 where
  clean_timeout close : DelegateAction
  recv : Received → DelegateAction
