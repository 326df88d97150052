-- ===== src/Chat/Input.antt =====
-- `dispatch_text` of chat_controller.py: which action a line of input is.
pub mod Submit
use simple_harness_service_s.Text.{codes, is_blank}
use simple_harness_service_s.Chat.State.{
  Text, ChatAction, submit, cancel, quit, clear, help, status, set_session, new_session, notice,
  ChatController, Deadlines,
}
use simple_harness_service_s.Chat.Actions.{
  Draw, Reply, answered, strip, lstrip, strip_end, dispatch,
}
use simple_harness_service_s.Common.{
  Bool, true, false, not, ◌&&◌, [], ◌∷◌, ◌++◌, if◌then◌else◌, ◌==◌, nat_eq,
}

unfoldable pub same_text : Text → Text → Bool
same_text [] [] = true
same_text (a ∷ s) (b ∷ t) = a == b && same_text s t
same_text _ _ = false

-- The first and the last part of text.partition(" ")
unfoldable pub before_space : Text → Text
before_space [] = []
before_space (c ∷ text) = let rest = before_space text in if c == b' ' then [] else c ∷ rest

unfoldable pub after_space : Text → Text
after_space [] = []
after_space (c ∷ text) = let rest = after_space text in if c == b' ' then text else rest

-- text.startswith("/")
abbrev pub is_slash : Text → Bool
is_slash [] = false
is_slash (c ∷ text) = c == b'/'

-- What a line comes to: nothing, a notice of its own, or an action
pub data Line : Type 0 where
  nothing : Line
  current_session unknown : Line
  action : ChatAction → Line

abbrev pub is_empty : Text → Bool
is_empty [] = true
is_empty (c ∷ text) = false

unfoldable pub command_line : Text → Text → Line
unfolding same_text lstrip strip_end
command_line command argument =
    if same_text command (codes "/help") && is_empty argument
    then action help
    else if same_text command (codes "/status") && is_empty argument
    then action status
    else if same_text command (codes "/clear") && is_empty argument
    then action clear
    else if same_text command (codes "/cancel") && is_empty argument
    then action cancel
    else if same_text command (codes "/quit") && is_empty argument
    then action quit
    else if same_text command (codes "/new") && is_empty argument
    then action new_session
    else if same_text command (codes "/session")
    then (if is_empty argument then current_session else action (set_session (strip argument)))
    else unknown

unfoldable pub read_line : Text → Line
unfolding same_text command_line before_space after_space
read_line text =
    if is_blank text
    then nothing
    else if same_text text (codes "?")
    then action help
    else if not (is_slash text)
    then action (submit text)
    else command_line (before_space text) (after_space text)

unfoldable pub act_on : Deadlines → Draw → Text → Line → ChatController → ChatController × Reply
unfolding dispatch
act_on d draw text nothing s = (s, answered [])
act_on d draw text current_session s = (s, answered (notice s.session ∷ []))
act_on d draw text unknown s =
    (s, answered (notice (codes "Unknown command: " ++ before_space text) ∷ []))
act_on d draw text (action a) s = dispatch d draw a s

unfoldable pub dispatch_text : Deadlines → Draw → Text → ChatController → ChatController × Reply
unfolding read_line act_on
dispatch_text d draw text s = act_on d draw text (read_line text) s
