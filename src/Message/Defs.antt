-- ===== src/Message/Defs.antt =====
-- The data of src/message.cpp: calls, replies and signals, and how a reply is made from a call.
use dbus_cplusplus.Common.{ℕ, String, List, [], ◌∷◌, ◌++◌, Option}

pub data Arg : Type 0 where
  text : String → Arg
  opaque : List ℕ → Arg

abbrev pub Body : Type 0
Body = List Arg

-- A method call as it arrives: the interface may be missing.
pub record CallMessage : Type 0 where
  pub serial : ℕ
  pub interface : Option String
  pub member : String
  pub body : Body

-- What goes back to a caller: the serial of the call, and the arguments or the error.
pub data Message : Type 0 where
  return_message : ℕ → Body → Message
  error_message : ℕ → String → String → Message

pub record SignalMessage : Type 0 where
  pub path : Option String
  pub interface : Option String
  pub member : String
  pub body : Body

unfoldable pub reply_serial : Message → ℕ
reply_serial (return_message serial body) = serial
reply_serial (error_message serial name message) = serial

-- The arguments that a reader of the message finds: an error carries its message as a text.
unfoldable pub arguments : Message → Body
arguments (return_message serial body) = body
arguments (error_message serial name message) = text message ∷ []

-- ReturnMessage::ReturnMessage(callee)
unfoldable pub new_return : CallMessage → Message
new_return callee = return_message callee.serial []

-- ErrorMessage::ErrorMessage(to_reply, name, message)
unfoldable pub new_error : CallMessage → String → String → Message
new_error to_reply name message = error_message to_reply.serial name message

-- _return.reader().copy_data(writer): the arguments are appended to those of `to`.
unfoldable pub copy_data : Message → Message → Message
unfolding arguments
copy_data from (return_message serial body) = return_message serial (body ++ arguments from)
copy_data from (error_message serial name message) = error_message serial name message
