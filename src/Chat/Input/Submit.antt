-- ===== src/Chat/Input/Submit.antt =====
-- Which lines of input `dispatch_text` of chat_controller.py submits.
use simple_harness_service_s.Text.{codes, is_blank}
use simple_harness_service_s.Chat.State.{Text, submit, help}
use simple_harness_service_s.Chat.Input.{
  Line, nothing, action, same_text, before_space, after_space, is_slash, command_line, read_line,
}
use simple_harness_service_s.Common.{◌≡◌, ◌≢◌, ◌↔◌, refl, Bool, false, not, if◌then◌else◌, arith}

-- The message is the line, which is not blank, is not a question mark and begins with no slash.
pub record IsMessage (text message : Text) : Type 0 where
  pub whole : message ≡ text
  pub filled : is_blank text ≡ false
  pub no_question : same_text text (codes "?") ≡ false
  pub no_slash : is_slash text ≡ false

command-not_submit :
    (command argument message : Text) → command_line command argument ≢ action (submit message)
unfolding command_line
command-not_submit command argument message h = ground arith

verdict :
    (blank question slash : Bool) (text message : Text) (command : Line)
    → command ≢ action (submit message)
    → (if blank
        then nothing
        else if question
        then action help
        else if not slash
        then action (submit text)
        else command)
      ≡ action (submit message)
    → (message ≡ text) × (blank ≡ false) × (question ≡ false) × (slash ≡ false)
verdict blank question slash text message command unlike h = ground arith

submit_sound :
    (text message : Text) → read_line text ≡ action (submit message) → IsMessage text message
unfolding read_line
submit_sound text message h =
    let (whole, blank, question, slash) =
      verdict (is_blank text) (same_text text (codes "?")) (is_slash text) text message
        (command_line (before_space text) (after_space text))
        (command-not_submit (before_space text) (after_space text) message) h in
    record { whole = whole; filled = blank; no_question = question; no_slash = slash }

submit_complete :
    (text message : Text) → IsMessage text message → read_line text ≡ action (submit message)
unfolding read_line
submit_complete text message i = rw (i.whole, i.filled, i.no_question, i.no_slash, read_line) refl

-- A line is submitted as a message exactly if it is not blank, is not a question mark and does not begin
-- with a slash, and the message is the whole line.
pub read_line-submit :
    (text message : Text) → (read_line text ≡ action (submit message)) ↔ IsMessage text message
read_line-submit text message = (submit_sound text message, submit_complete text message)
