-- ===== src/Handle/Paths.antt =====
-- The path buffers of servidor_handle.c, filled by `snprintf` and cut where it cuts.
use peer_to_peer_fileshare.Base.{◌+◌, ◌*◌, ◌++◌}
use peer_to_peer_fileshare.CString.{Text, codes, snprintf, max_filepath_length}

-- DATA_DIRECTORY
abbrev pub data_directory : Text
data_directory = codes "./database/"

-- `dirpath`, `user`, `owner_path`, `user_register`
unfoldable pub user_path : Text → Text
unfolding snprintf
user_path username = snprintf max_filepath_length (data_directory ++ username)

-- `user_connect`, `owner_connect`
unfoldable pub connect_path : Text → Text
unfolding snprintf
connect_path username =
    snprintf max_filepath_length (data_directory ++ (username ++ codes "/connect"))

-- `user_connect_path` of the loop in `handle_list_users`, which has twice the room
unfoldable pub entry_connect_path : Text → Text
unfolding snprintf
entry_connect_path name =
    snprintf (2 * max_filepath_length) (data_directory ++ (name ++ codes "/connect"))

-- `user_files`, `owner_files`
unfoldable pub files_path : Text → Text
unfolding snprintf
files_path username = snprintf max_filepath_length (data_directory ++ (username ++ codes "/files"))

-- `new_file_path`, `file_to_delete`: made from the buffer `user`
unfoldable pub published_path : Text → Text → Text
unfolding snprintf
published_path user filename =
    snprintf (2 * max_filepath_length) (user ++ (codes "/files/" ++ filename))

-- `file_path` of the loop in `handle_list_content`, made from the buffer `owner_path`
unfoldable pub content_path : Text → Text → Text
unfolding snprintf
content_path owner name =
    snprintf (max_filepath_length * 2 + 6) (owner ++ (codes "/files/" ++ name))
