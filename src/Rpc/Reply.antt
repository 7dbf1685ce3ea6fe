-- ===== src/Rpc/Reply.antt =====
-- What a request is answered with: the `__error__:` texts of the components of src/studio_host.cpp,
-- and everything else.
use streammate_studio_host.Prelude.{ℕ, Bytes}

-- A refusal has its code, negated, and its message; the JSON text of an answer is left out.
pub data Reply : Type 0 where
  refused : ℕ → Bytes → Reply
  answered : Reply

-- -32602 and -32603
abbrev pub invalid : Bytes → Reply
invalid message = refused 32602 message

abbrev pub unavailable : Bytes → Reply
unavailable message = refused 32603 message
