-- ===== src/Message.antt =====
-- src/message.cpp and include/dbus-c++/message.h: the messages that objects exchange, as far as
-- objects and threads see them. The marshalled arguments are libdbus's: an argument is a text, or
-- bytes that nobody here looks into.
mod Defs
pub use Defs.{
  Arg, text, opaque, CallMessage, Message, return_message, error_message, SignalMessage, Body,
}
unfoldable pub use Defs.{reply_serial, arguments, new_return, new_error, copy_data}
