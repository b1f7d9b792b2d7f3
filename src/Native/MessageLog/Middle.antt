-- ===== src/Native/MessageLog/Middle.antt =====
-- Taking a message out of the log when others came behind it (`remove` of
-- lib/native/message_log.go).
use agentapi.Prelude.{◌≡◌, refl, ap, List, [], ◌∷◌, ◌++◌, none, some, ==_refl, delete_at, length}
use agentapi.Native.MessageLog.{Message, MessageLog, index, remove}

index-behind :
    (before news : List Message) (m : Message)
    → index m.id news ≡ none
    → index m.id (before ++ m ∷ news) ≡ some (length before)
unfolding index
index-behind [] news m h = rw (h, index) (rw (==_refl m.id) refl)
index-behind (x ∷ before) news m h = rw (index-behind before news m h, index) refl

delete_at-middle :
    (before news : List Message) (m : Message)
    → delete_at (length before) (before ++ m ∷ news) ≡ before ++ news
delete_at-middle [] news m = refl
delete_at-middle (x ∷ before) news m = ap (λ r. x ∷ r) (delete_at-middle before news m)

-- A message goes, and those before and behind it stay, if none behind it has its Id.
pub remove-middle :
    (t : MessageLog) (before news : List Message) (m : Message)
    → t.messages ≡ before ++ m ∷ news
    → index m.id news ≡ none
    → (remove t m.id).messages ≡ before ++ news
unfolding remove
remove-middle t before news m e h =
    rw (e, index-behind before news m h, remove) (rw e (delete_at-middle before news m))
