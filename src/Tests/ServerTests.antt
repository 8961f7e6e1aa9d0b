-- ===== src/Tests/ServerTests.antt =====
-- The tool server's theorems at concrete inputs.
use groovy_agent.Base.{
  ◌≡◌, ◌⊎◌, refl, sym, ap, ◌∙◌, some-eq, ok-injective, if◌then◌else◌, true, false, Bytes, some,
  codes, same, length, Result, ok, err, pos,
}
use groovy_agent.Strings.{trim_space, has_prefix, contains_byte, split_byte, join_with}
use groovy_agent.Paths.{clean, is_abs}
use groovy_agent.Paths.Clean.{climbs}
use groovy_agent.McpServer.Workspace.{
  SysError, FileInfo, FileSystem, OpenFile, regular, directory, not_exist, resolve_path,
  resolve_touch_path, read_file, read_file_tail, join_path, inside, dir_name, base_name, read_limit,
}
use groovy_agent.McpServer.Workspace.Inside.{
  Resolved, resolve_path-Resolved, IsNew, IsInside, resolve_touch_path-IsInside,
}
use groovy_agent.McpServer.Workspace.Reads.{
  Reads, read_file-Reads, ReadsEnd, read_file_tail-ReadsEnd,
}

abbrev five_bytes : OpenFile
five_bytes = record { content = codes "hello"; seek_fails = false; read_fails = false }

abbrev five_bytes_info : FileInfo
five_bytes_info = record { kind = regular; size = 5 }

-- No symbolic links, and every path is a file of five bytes.
abbrev same_files : FileSystem
same_files = record {
  eval_symlinks = ok;
  stat = λ path. some (record { kind = directory; size = 0 });
  lstat = λ path. some five_bytes_info;
  open_file = λ path. ok five_bytes;
}

abbrev missing : Bytes → Result SysError Bytes
missing path = if same path (codes "/w/new") then err not_exist else ok path

-- Only one file is missing.
abbrev one_missing : FileSystem
one_missing = record same_files { eval_symlinks = missing }

found_path : resolve_path (codes "/w") same_files (codes "a/../b.txt") ≡ ok (codes "/w/b.txt")
unfolding resolve_path trim_space same contains_byte is_abs has_prefix clean split_byte join_with
    climbs join_path inside
found_path = refl

resolve_path-Resolved_example :
    Resolved (codes "/w") same_files (codes "a/../b.txt") (codes "/w/b.txt")
resolve_path-Resolved_example =
    resolve_path-Resolved (codes "/w") same_files (codes "a/../b.txt") (codes "/w/b.txt") found_path

touched_path : resolve_touch_path (codes "/w") one_missing (codes "new") ≡ ok (codes "/w/new")
unfolding resolve_touch_path resolve_path trim_space same contains_byte is_abs has_prefix clean
    split_byte join_with climbs join_path inside dir_name base_name
touched_path = refl

resolve_touch_path-IsInside_example :
    (Resolved (codes "/w") one_missing (codes "new") (codes "/w/new")
      ⊎ IsNew (codes "/w") one_missing (codes "new") (codes "/w/new"))
    × IsInside (codes "/w") (codes "/w/new")
resolve_touch_path-IsInside_example =
    resolve_touch_path-IsInside (codes "/w") one_missing (codes "new") (codes "/w/new") touched_path

read_three :
    read_file (codes "/w") same_files 12288 (codes "b.txt") (pos 3) ≡ ok (codes "hel", true)
unfolding read_file resolve_path trim_space same contains_byte is_abs has_prefix clean split_byte
    join_with climbs join_path inside read_limit
read_three = refl

read_file-Reads_example :
    Reads (codes "/w") same_files 12288 (codes "b.txt") (pos 3) (codes "hel", true)
read_file-Reads_example =
    read_file-Reads (codes "/w") same_files 12288 (codes "b.txt") (pos 3) (codes "hel", true)
      read_three

read_last_three :
    read_file_tail (codes "/w") same_files 12288 (codes "b.txt") (pos 3) ≡ ok (codes "llo", true)
unfolding read_file_tail resolve_path trim_space same contains_byte is_abs has_prefix clean
    split_byte join_with climbs join_path inside read_limit
read_last_three = refl

sizes_are_lengths :
    (path : Bytes) (info : FileInfo) (file : OpenFile)
    → same_files.lstat path ≡ some info
    → same_files.open_file path ≡ ok file
    → info.size ≡ length file.content
sizes_are_lengths path info file i f =
    ap (λ (n : FileInfo). n.size) (sym (some-eq i))
    ∙ ap (λ (o : OpenFile). length o.content) (ok-injective f)

read_file_tail-ReadsEnd_example :
    ReadsEnd (codes "/w") same_files 12288 (codes "b.txt") (pos 3) (codes "llo", true)
read_file_tail-ReadsEnd_example =
    read_file_tail-ReadsEnd (codes "/w") same_files sizes_are_lengths 12288 (codes "b.txt") (pos 3)
      (codes "llo", true) read_last_three
