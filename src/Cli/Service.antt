-- ===== src/Cli/Service.antt =====
-- internal/cli/cmd/service.go: the service files and the programs that install, start and stop them.
-- What the system answers is an argument; directories are left out, since errors of making most of
-- them are ignored.
pub mod Installing
use clipman_daemon.Prelude.{
  Bool, true, not, ◌&&◌, Option, none, some, List, [], ◌∷◌, ◌++◌, Bytes, codes, bytes_equal,
  if◌then◌else◌, is_some,
}
use clipman_daemon.Prelude.Dict.{Dict, lookup, insert, delete}

-- runtime.GOOS
pub data Platform : Type 0 where
  windows darwin linux : Platform

-- `runs` is whether a command succeeds, and `effect` what it makes of the files; `join` is filepath.Join.
pub record Surroundings : Type 0 where
  pub platform : Platform
  pub system_service : Bool
  pub force_service : Bool
  pub executable : Option Bytes
  pub home : Bytes
  pub temp : Bytes
  pub join : Bytes → Bytes → Bytes
  pub makes_dir : Bool
  pub writes : Bool
  pub removes : Bool
  pub runs : List Bytes → Bool
  pub effect : List Bytes → Dict Bytes → Dict Bytes

-- The files, and the commands that were run, the last one last.
pub record World : Type 0 where
  pub files : Dict Bytes
  pub commands : List (List Bytes)

pub data ServiceError : Type 0 where
  no_executable already_exists mkdir_failed write_failed remove_failed : ServiceError
  start_failed stop_failed reload_failed enable_failed disable_failed invalid_action : ServiceError

unfoldable pub get_windows_service_info : Surroundings → Bytes → Bytes × Bytes
get_windows_service_info s exe = (
  s.join s.temp (codes "clipman-service.bat"),
  codes "@echo off\nsc create clipman binPath= \""
      ++ (exe
          ++ (codes
              " --detach\" start= auto DisplayName= \"Clipman Clipboard Manager\"\nsc description clipman \"Clipboard manager that provides history and synchronization capabilities\"\nsc start clipman\n")),
)

-- The path of launchd's file.
unfoldable pub plist_path : Surroundings → Bytes
plist_path s =
    if s.system_service
    then codes "/Library/LaunchDaemons/com.clipman.daemon.plist"
    else s.join s.home (codes "Library/LaunchAgents/com.clipman.daemon.plist")

unfoldable pub get_darwin_service_info : Surroundings → Bytes → Bytes × Bytes
unfolding plist_path
get_darwin_service_info s exe =
    let log_dir =
      s.join (s.join s.home (codes "Library/Application Support/Clipman")) (codes "logs") in
    (
      plist_path s,
      codes
            "<?xml version=\"1.0\" encoding=\"UTF-8\"?>\n<!DOCTYPE plist PUBLIC \"-//Apple//DTD PLIST 1.0//EN\" \"http://www.apple.com/DTDs/PropertyList-1.0.dtd\">\n<plist version=\"1.0\">\n<dict>\n\t<key>Label</key>\n\t<string>com.clipman.daemon</string>\n\t<key>ProgramArguments</key>\n\t<array>\n\t\t<string>"
          ++ (exe
              ++ (codes
                    "</string>\n\t</array>\n\t<key>RunAtLoad</key>\n\t<true/>\n\t<key>KeepAlive</key>\n\t<true/>\n\t<key>StandardOutPath</key>\n\t<string>"
                  ++ (log_dir
                      ++ (codes "/clipman.log</string>\n\t<key>StandardErrorPath</key>\n\t<string>"
                          ++ (log_dir
                              ++ codes "/clipman-error.log</string>\n</dict>\n</plist>\n"))))),
    )

unfoldable pub get_linux_service_info : Surroundings → Bytes → Bytes × Bytes
get_linux_service_info s exe =
    if s.system_service
    then (
      codes "/etc/systemd/system/clipman.service",
      codes
            "[Unit]\nDescription=Clipman Clipboard Manager\nAfter=network.target\n\n[Service]\nExecStart="
          ++ (exe
              ++ codes
                  "\nRestart=on-failure\nRestartSec=5\n\n[Install]\nWantedBy=multi-user.target\n"),
    )
    else (
      s.join (s.join s.home (codes ".config/systemd/user")) (codes "clipman.service"),
      codes
            "[Unit]\nDescription=Clipman Clipboard Manager\nAfter=graphical-session.target\n\n[Service]\nExecStart="
          ++ (exe
              ++ codes
                  "\nRestart=on-failure\nRestartSec=5\n\n[Install]\nWantedBy=default.target\n"),
    )

-- The path and the content for this system and executable.
unfoldable pub service_info : Surroundings → Platform → Bytes → Bytes × Bytes
unfolding get_windows_service_info get_darwin_service_info get_linux_service_info
service_info s windows exe = get_windows_service_info s exe
service_info s darwin exe = get_darwin_service_info s exe
service_info s linux exe = get_linux_service_info s exe

unfoldable pub get_service_file : Surroundings → Option (Bytes × Bytes)
unfolding service_info
get_service_file s = elim s.executable [
  | none ↦ none
  | some exe ↦ some (service_info s s.platform exe)
]

-- A command is run: whether it succeeds is the last result.
unfoldable pub run : Surroundings → List Bytes → World → World × Bool
run s command w = (
  record { files = s.effect command w.files; commands = w.commands ++ command ∷ [] },
  s.runs command,
)

-- `systemctl` with its arguments, for the user's services or the system's.
unfoldable pub systemctl : Surroundings → List Bytes → List Bytes
systemctl s args =
    if s.system_service then codes "systemctl" ∷ args else codes "systemctl" ∷ codes "--user" ∷ args

abbrev unit_name : Bytes
unit_name = codes "clipman.service"

unfoldable pub start_command : Surroundings → Platform → List Bytes
unfolding plist_path systemctl
start_command s windows = codes "sc" ∷ codes "start" ∷ codes "clipman" ∷ []
start_command s darwin = codes "launchctl" ∷ codes "load" ∷ plist_path s ∷ []
start_command s linux = systemctl s (codes "start" ∷ unit_name ∷ [])

unfoldable pub stop_command : Surroundings → Platform → List Bytes
unfolding plist_path systemctl
stop_command s windows = codes "sc" ∷ codes "stop" ∷ codes "clipman" ∷ []
stop_command s darwin = codes "launchctl" ∷ codes "unload" ∷ plist_path s ∷ []
stop_command s linux = systemctl s (codes "stop" ∷ unit_name ∷ [])

unfoldable pub status_command : Surroundings → Platform → List Bytes
unfolding systemctl
status_command s windows = codes "sc" ∷ codes "query" ∷ codes "clipman" ∷ []
status_command s darwin = codes "launchctl" ∷ codes "list" ∷ codes "com.clipman.daemon" ∷ []
status_command s linux = systemctl s (codes "status" ∷ unit_name ∷ [])

unfoldable pub start_service : Surroundings → World → World × Option ServiceError
unfolding start_command run
start_service s w =
    let (w', ok) = run s (start_command s s.platform) w in
    (w', if ok then none else some start_failed)

unfoldable pub stop_service : Surroundings → World → World × Option ServiceError
unfolding stop_command run
stop_service s w =
    let (w', ok) = run s (stop_command s s.platform) w in
    (w', if ok then none else some stop_failed)

-- `checkServiceStatus` prints what the command prints, and never fails.
unfoldable pub check_service_status : Surroundings → World → World × Option ServiceError
unfolding status_command run
check_service_status s w = ((run s (status_command s s.platform) w).0, none)

unfoldable pub enable_on : Surroundings → Platform → World → World × Option ServiceError
unfolding run systemctl plist_path
enable_on s windows w = (w, none)
enable_on s darwin w =
    let (w', ok) = run s (codes "launchctl" ∷ codes "load" ∷ codes "-w" ∷ plist_path s ∷ []) w in
    (w', if ok then none else some enable_failed)
enable_on s linux w =
    let (w', reloaded) = run s (systemctl s (codes "daemon-reload" ∷ [])) w in
    let (w'', enabled) = run s (systemctl s (codes "enable" ∷ codes "--now" ∷ unit_name ∷ [])) w' in
    if not reloaded
    then (w', some reload_failed)
    else (w'', if enabled then none else some enable_failed)

unfoldable pub enable_service : Surroundings → World → World × Option ServiceError
unfolding enable_on
enable_service s w = enable_on s s.platform w

unfoldable pub disable_on : Surroundings → Platform → World → World × Option ServiceError
unfolding run systemctl
disable_on s windows w =
    let (w', ok) = run s (codes "sc" ∷ codes "delete" ∷ codes "clipman" ∷ []) w in
    (w', if ok then none else some disable_failed)
disable_on s darwin w = (w, none)
disable_on s linux w =
    let (w', ok) = run s (systemctl s (codes "disable" ∷ unit_name ∷ [])) w in
    (w', if ok then none else some disable_failed)

unfoldable pub disable_service : Surroundings → World → World × Option ServiceError
unfolding disable_on
disable_service s w = disable_on s s.platform w

unfoldable pub file_exists : Bytes → World → Bool
file_exists path w = is_some (lookup path w.files)

-- A write that fails is taken to leave the files as they are.
unfoldable pub install_service : Surroundings → World → World × Option ServiceError
unfolding get_service_file enable_service file_exists
install_service s w = elim (get_service_file s) [
  | none ↦ (w, some no_executable)
  | some (path, text) ↦
      if file_exists path w && not s.force_service
      then (w, some already_exists)
      else if not s.makes_dir
      then (w, some mkdir_failed)
      else if not s.writes
      then (w, some write_failed)
      else enable_service s (record w { files = insert path text w.files })
]

-- The errors of stopping and disabling are logged.
unfoldable pub uninstall_service : Surroundings → World → World × Option ServiceError
unfolding get_service_file stop_service disable_service file_exists
uninstall_service s w = elim (get_service_file s) [
  | none ↦ (w, some no_executable)
  | some (path, text) ↦
      let w' = (disable_service s (stop_service s w).0).0 in
      if not (file_exists path w)
      then (w, none)
      else if not s.removes
      then (w', some remove_failed)
      else (record w' { files = delete path w'.files }, none)
]

-- The switch on the action.
unfoldable pub service : Surroundings → Bytes → World → World × Option ServiceError
unfolding install_service uninstall_service start_service stop_service check_service_status
service s action w =
    if bytes_equal action (codes "install")
    then install_service s w
    else if bytes_equal action (codes "uninstall")
    then uninstall_service s w
    else if bytes_equal action (codes "start")
    then start_service s w
    else if bytes_equal action (codes "stop")
    then stop_service s w
    else if bytes_equal action (codes "status")
    then check_service_status s w
    else (w, some invalid_action)
