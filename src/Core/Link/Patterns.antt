-- ===== src/Core/Link/Patterns.antt =====
-- The regular expressions of src/core/link.rs.
use panshou.Prelude.{◌++◌}
use panshou.Text.{Text, text}

abbrev pub link_pattern : Text
link_pattern =
    text "(?xi)\n"
    ++ text "        magnet:\\?xt=urn:btih:[a-z0-9]+(?:&[^\\s<>\"']*)?\n"
    ++ text "        |ed2k://\\|file\\|[^|]+\\|\\d+\\|[a-f0-9]+\\|/?\n"
    ++ text "        |https?://(?:www\\.)?(?:\n"
    ++ text "          pan\\.baidu\\.com/s/[a-z0-9_-]+\n"
    ++ text "         |(?:alipan|aliyundrive)\\.com/s/[a-z0-9_-]+\n"
    ++ text "         |pan\\.quark\\.cn/s/[a-z0-9_-]+\n"
    ++ text "         |guangyapan\\.com/s/[a-z0-9_-]+\n"
    ++ text
        "         |cloud\\.189\\.cn/t/[a-z0-9%_-]+(?:（访问码：[a-z0-9]+）|%EF%BC%88%E8%AE%BF%E9%97%AE%E7%A0%81%EF%BC%9A[a-z0-9]+%EF%BC%89)?\n"
    ++ text "         |(?:drive|fast)\\.uc\\.cn/s/[a-z0-9_-]+(?:\\?public=\\d)?\n"
    ++ text
        "         |(?:yun\\.139\\.com/shareweb/\\#/w/i/[a-z0-9_-]+|caiyun\\.139\\.com/(?:w/i/[a-z0-9_-]+|m/i\\?[^\\s<>\"']+)|caiyun\\.feixin\\.10086\\.cn/[a-z0-9_-]+)\n"
    ++ text "         |(?:115\\.com|115cdn\\.com|anxia\\.com)/s/[a-z0-9_-]+\n"
    ++ text "         |(?:[a-z0-9-]+\\.)*weiyun\\.com/[a-z0-9_/?=&%-]+\n"
    ++ text "         |(?:[a-z0-9-]+\\.)*lanzou[a-z]?\\.com/[a-z0-9_/?=&%-]+\n"
    ++ text "         |mypikpak\\.com/s/[a-z0-9_-]+\n"
    ++ text "         |pan\\.xunlei\\.com/s/[a-z0-9_-]+\\#?\n"
    ++ text
        "         |(?:123684|123685|123865|123912|123pan|123592)\\.(?:com|cn)/s/[a-z0-9_-]+(?:\\?(?:%E6%8F%90%E5%8F%96%E7%A0%81|提取码)[:：][a-z0-9]+)?\n"
    ++ text "        )(?:[?&][^\\s<>\"\\']*)?"

abbrev pub url_password_pattern : Text
url_password_pattern = text "(?i)[?&](?:pwd|password)=([a-z0-9]{4,6})(?:[^a-z0-9]|$)"

abbrev pub text_password_pattern : Text
text_password_pattern =
    text "(?i)(?:(?:提取|访问|提取密|密)码|pwd)(?:\\s*[：:]\\s*|\\s+)([a-z0-9]{4,6})(?:[^a-z0-9]|$)"

abbrev pub date_pattern : Text
date_pattern =
    text
      "^(?:📅\\s*)?(?:(?:\\d{1,4}年)?\\d{1,2}月\\d{1,2}日|\\d{1,4}[-/.]\\d{1,2}[-/.]\\d{1,2})(?:\\s|$)"
