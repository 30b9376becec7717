-- ===== src/Eol/Tables.antt =====
-- The tables of backend/domains/eol/matching.py. A dictionary is a list of its entries in their order,
-- a frozenset a list that is read by membership.
use sentora.Prelude.{List, String, [], ◌∷◌}

unfoldable pub cpe_to_eol_map : List (String × String)
cpe_to_eol_map =
    ("google:chrome", "chrome")
    ∷ ("mozilla:firefox", "firefox")
    ∷ ("mozilla:firefox_esr", "firefox")
    ∷ ("microsoft:edge", "microsoft-edge")
    ∷ ("apple:safari", "safari")
    ∷ ("opera:opera_browser", "opera")
    ∷ ("microsoft:windows_10", "windows")
    ∷ ("microsoft:windows_11", "windows")
    ∷ ("microsoft:windows_server_2016", "windows-server")
    ∷ ("microsoft:windows_server_2019", "windows-server")
    ∷ ("microsoft:windows_server_2022", "windows-server")
    ∷ ("apple:macos", "macos")
    ∷ ("canonical:ubuntu_linux", "ubuntu")
    ∷ ("redhat:enterprise_linux", "rhel")
    ∷ ("centos:centos", "centos")
    ∷ ("debian:debian_linux", "debian")
    ∷ ("fedoraproject:fedora", "fedora")
    ∷ ("suse:linux_enterprise_server", "sles")
    ∷ ("microsoft:office", "office")
    ∷ ("microsoft:365_apps", "office")
    ∷ ("microsoft:outlook", "office")
    ∷ ("microsoft:word", "office")
    ∷ ("microsoft:excel", "office")
    ∷ ("microsoft:powerpoint", "office")
    ∷ ("libreoffice:libreoffice", "libreoffice")
    ∷ ("python_software_foundation:python", "python")
    ∷ ("oracle:java_se", "oracle-jdk")
    ∷ ("oracle:jre", "oracle-jdk")
    ∷ ("oracle:openjdk", "openjdk")
    ∷ ("nodejs:node.js", "nodejs")
    ∷ ("php:php", "php")
    ∷ ("ruby-lang:ruby", "ruby")
    ∷ ("golang:go", "go")
    ∷ ("rust-lang:rust", "rust")
    ∷ ("microsoft:.net", "dotnet")
    ∷ ("microsoft:.net_framework", "dotnetfx")
    ∷ ("microsoft:.net_core", "dotnet")
    ∷ ("mysql:mysql", "mysql")
    ∷ ("postgresql:postgresql", "postgresql")
    ∷ ("mongodb:mongodb", "mongodb")
    ∷ ("microsoft:sql_server", "mssqlserver")
    ∷ ("oracle:database_server", "oracle-database")
    ∷ ("mariadb:mariadb", "mariadb")
    ∷ ("redis:redis", "redis")
    ∷ ("adobe:acrobat_reader", "adobe-acrobat")
    ∷ ("adobe:acrobat", "adobe-acrobat")
    ∷ ("adobe:acrobat_reader_dc", "adobe-acrobat")
    ∷ ("adobe:creative_cloud", "adobe-creative-cloud")
    ∷ ("adobe:photoshop", "photoshop")
    ∷ ("docker:docker", "docker-engine")
    ∷ ("vmware:esxi", "esxi")
    ∷ ("vmware:vcenter_server", "vcenter")
    ∷ ("hashicorp:terraform", "terraform")
    ∷ ("kubernetes:kubernetes", "kubernetes")
    ∷ ("cisco:ios", "cisco-ios")
    ∷ ("fortinet:fortios", "fortios")
    ∷ ("paloaltonetworks:pan-os", "pan-os")
    ∷ ("openssh:openssh", "openssh")
    ∷ ("openssl:openssl", "openssl")
    ∷ ("microsoft:visual_studio_code", "visual-studio-code")
    ∷ ("microsoft:visual_studio", "visual-studio")
    ∷ ("jetbrains:intellij_idea", "intellij-idea")
    ∷ ("git:git", "git")
    ∷ ("zoom:zoom", "zoom")
    ∷ ("microsoft:teams", "microsoft-teams")
    ∷ ("slack:slack", "slack")
    ∷ ("7-zip:7-zip", "7-zip")
    ∷ ("videolan:vlc_media_player", "vlc")
    ∷ ("wireshark:wireshark", "wireshark")
    ∷ ("filezilla:filezilla_client", "filezilla")
    ∷ ("notepad-plus-plus:notepad\\+\\+", "notepad-plus-plus")
    ∷ ("apple:iphone_os", "ios")
    ∷ ("google:android", "android")
    ∷ ("elastic:elasticsearch", "elasticsearch")
    ∷ ("elastic:kibana", "kibana")
    ∷ ("grafana:grafana", "grafana")
    ∷ ("apache:http_server", "apache")
    ∷ ("nginx:nginx", "nginx")
    ∷ ("torvalds:linux_kernel", "linux")
    ∷ []

unfoldable pub name_to_eol_map : List (String × String)
name_to_eol_map =
    ("google chrome", "chrome")
    ∷ ("microsoft edge", "microsoft-edge")
    ∷ ("mozilla firefox", "firefox")
    ∷ ("mozilla firefox esr", "firefox")
    ∷ ("python launcher", "python")
    ∷ ("node.js", "nodejs")
    ∷ ("go programming language", "go")
    ∷ ("microsoft 365", "office")
    ∷ ("microsoft office", "office")
    ∷ ("microsoft visual studio code", "visual-studio-code")
    ∷ ("microsoft visual studio", "visual-studio")
    ∷ ("microsoft .net", "dotnet")
    ∷ ("microsoft .net framework", "dotnetfx")
    ∷ ("microsoft .net runtime", "dotnet")
    ∷ ("microsoft asp.net", "dotnet")
    ∷ ("microsoft windows desktop runtime", "dotnet")
    ∷ ("microsoft teams", "microsoft-teams")
    ∷ ("microsoft sql server", "mssqlserver")
    ∷ ("adobe acrobat", "adobe-acrobat")
    ∷ ("adobe acrobat reader", "adobe-acrobat")
    ∷ ("adobe creative cloud", "adobe-creative-cloud")
    ∷ ("java", "oracle-jdk")
    ∷ ("oracle java", "oracle-jdk")
    ∷ ("amazon corretto", "amazon-corretto")
    ∷ ("eclipse temurin", "eclipse-temurin")
    ∷ ("docker", "docker-engine")
    ∷ ("ansible", "ansible-core")
    ∷ ("vlc media player", "vlc")
    ∷ ("notepad++", "notepad-plus-plus")
    ∷ ("vmware tools", "vmware-tools")
    ∷ ("vmware workstation", "vmware-workstation")
    ∷ []

unfoldable pub noise_words : List String
noise_words =
    "the" ∷ "for" ∷ "and" ∷ "with" ∷ "pro" ∷ "professional" ∷ "enterprise" ∷ "standard" ∷ "edition"
    ∷ "version" ∷ "update" ∷ "x64" ∷ "x86" ∷ "64-bit" ∷ "32-bit" ∷ "amd64" ∷ "arm64" ∷ "portable"
    ∷ "installer" ∷ "setup" ∷ "microsoft" ∷ "google" ∷ "apple" ∷ "adobe" ∷ "oracle" ∷ "ibm" ∷ "dell"
    ∷ "hp" ∷ "intel" ∷ "nvidia" ∷ "vmware" ∷ "cisco" ∷ "red" ∷ "hat" ∷ []
